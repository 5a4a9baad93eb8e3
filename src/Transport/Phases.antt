-- ===== src/Transport/Phases.antt =====
-- The table of descriptors around the transport of src/agent_transport.c, and the tests of -1.
use nanokvm_rdp.Prelude.{
  ℕ, ◌≡◌, refl, sym, ap, ◌∙◌, ◌≢◌, Bool, true, false, ◌&&◌, not, Option, none, some, ◌==◌,
  if◌then◌else◌, arith, eq→==, inl, inr, ◌⊎◌,
}
use nanokvm_rdp.Transport.{is_fd, is_open}
use nanokvm_rdp.Transport.World.{Phase, unused, greeting, running, assign}

pub assign-cases :
    (phase : ℕ → Phase) (fd : ℕ) (p q : Phase) (u : ℕ)
    → assign phase fd p u ≡ q
    → ((u ≡ fd) × (p ≡ q)) ⊎ ((u ≢ fd) × (phase u ≡ q))
unfolding assign
assign-cases phase fd p q u h = ground (arith, h)

pub assign-same : (phase : ℕ → Phase) (fd : ℕ) (p : Phase) → assign phase fd p fd ≡ p
unfolding assign
assign-same phase fd p = ground arith

pub assign-other :
    (phase : ℕ → Phase) (fd : ℕ) (p : Phase) (u : ℕ) → u ≢ fd → assign phase fd p u ≡ phase u
unfolding assign
assign-other phase fd p u h = ground (arith, h)

-- What another phase than the new one was assigned before, and what another phase than the old one
-- is assigned still.
pub assign-old :
    (phase : ℕ → Phase) (fd : ℕ) (p q : Phase) (u : ℕ)
    → p ≢ q
    → assign phase fd p u ≡ q
    → phase u ≡ q
assign-old phase fd p q u d h = elim (assign-cases phase fd p q u h) [
  | inl e ↦ absurd (d e.1)
  | inr e ↦ e.1
]

pub assign-keeps :
    (phase : ℕ → Phase) (fd : ℕ) (p q : Phase) (u : ℕ)
    → phase fd ≢ q
    → phase u ≡ q
    → assign phase fd p u ≡ q
assign-keeps phase fd p q u d h = assign-other phase fd p u (λ e. d (ap phase (sym e) ∙ h)) ∙ h

pub running_inj : (a b : ℕ) → running a ≡ running b → a ≡ b
running_inj a b h = cc

pub greeting-running : (a : ℕ) → greeting ≢ running a
greeting-running a h = cc

pub unused-running : (a : ℕ) → unused ≢ running a
unused-running a h = cc

pub unused-greeting : unused ≢ greeting
unused-greeting h = cc

pub other : (p q r : Phase) → p ≡ q → q ≢ r → p ≢ r
other p q r e d h = d (sym e ∙ h)

pub is_fd-is_open : (o : Option ℕ) (fd : ℕ) → is_fd o fd ≡ true → is_open o ≡ true
unfolding is_fd is_open
is_fd-is_open none fd e = e
is_fd-is_open (some v) fd e = refl

pub no_handshake :
    (stopping : Bool) (o : Option ℕ) (u : ℕ) → not stopping && not (is_open o) ≡ true → o ≢ some u
unfolding is_open
no_handshake stopping none u h e = cc
no_handshake true (some v) u h e = cc
no_handshake false (some v) u h e = cc

pub not_left : (o : Option ℕ) (fd a b : ℕ) → is_fd o fd && a == b ≡ false → o ≡ some fd → a ≢ b
unfolding is_fd
not_left none fd a b h e = λ k. cc
not_left (some v) fd a b h e = λ k. let same : v ≡ fd = cc in ground (arith, h, same, k)

-- The handshake that ends is the one that is waited for.
pub freed : (o : Option ℕ) (fd : ℕ) → o ≡ some fd → (if is_fd o fd then none else o) ≡ none
unfolding is_fd
freed none fd e = refl
freed (some v) fd e = let same : v ≡ fd = cc in rw (eq→== v fd same) refl
