-- ===== src/Hid/Queue/Window.antt =====
-- The reports of a queue in the order in which they leave (src/hid.c), and how the ring operations
-- act on them.
use nanokvm_rdp.Prelude.{
  ℕ, zero, suc, ◌+◌, ◌-◌, ◌%◌, ◌<◌, ◌≤◌, ◌≡◌, refl, ap, ap₂, List, [], ◌∷◌, ◌++◌, get_or, set,
  length, get_or-set_self, get_or-set_ne, arith,
}
use nanokvm_rdp.Hid.Queue.{Report, blank, Queue, capacity}

module _ (reports : List Report) where
  -- The `n` reports from `head` on, round the end of the ring.
  abbrev pub window : ℕ → ℕ → List Report
  window head zero = []
  window head (suc n) = get_or reports head blank ∷ window ((head + 1) % capacity) n

abbrev pub pending : Queue → List Report
pending q = window q.reports q.head q.count

pub record IsRing (q : Queue) : Type 0 where
  pub size : length q.reports ≡ capacity
  pub head_in : q.head < capacity
  pub count_in : q.count ≤ capacity

-- A write `m` places on is past the first `n`.
pub window-set_past :
    (reports : List Report) (v : Report) (n m head i : ℕ)
    → head < capacity
    → n ≤ m
    → m < capacity
    → i ≡ (head + m) % capacity
    → window (set reports i v) head n ≡ window reports head n
window-set_past reports v zero m head i hh hn hm e = refl
window-set_past reports v (suc n) m head i hh hn hm e =
    ap₂ ◌∷◌ (get_or-set_ne reports v blank (omega arith)) (
      window-set_past reports v n (m - 1) ((head + 1) % capacity) i (omega arith) (omega arith)
        (omega arith) (omega arith))

-- The last of `n + 1` reports is the one `n` places on: writing there replaces it, or adds it.
pub window-set_end :
    (reports : List Report) (v : Report) (n head i : ℕ)
    → length reports ≡ capacity
    → head < capacity
    → n < capacity
    → i ≡ (head + n) % capacity
    → window (set reports i v) head (suc n) ≡ window reports head n ++ v ∷ []
window-set_end reports v zero head i size hh hn e =
    let here : i ≡ head = omega arith in
    rw here (ap (λ r. r ∷ []) (get_or-set_self reports head v blank (omega arith)))
window-set_end reports v (suc n) head i size hh hn e =
    ap₂ ◌∷◌ (get_or-set_ne reports v blank (omega arith)) (
      window-set_end reports v n ((head + 1) % capacity) i size (omega arith) (omega arith)
        (omega arith))

pub window-end :
    (reports : List Report) (n head : ℕ)
    → head < capacity
    → window reports head (suc n)
      ≡ window reports head n ++ get_or reports ((head + n) % capacity) blank ∷ []
window-end reports zero head hh = let here : (head + 0) % capacity ≡ head = omega arith in rw here
window-end reports (suc n) head hh =
    let next : ((head + 1) % capacity + n) % capacity ≡ (head + suc n) % capacity = omega arith in
    ap (◌∷◌ (get_or reports head blank))
      (rw next at (window-end reports n ((head + 1) % capacity) (omega arith)))
