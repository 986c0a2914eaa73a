-- ===== src/RangePartition/DiscardManager/Maximum.antt =====
-- The stream that `MaxDiscard` returns.
use mathlib.Core.Path.{subst}
use autumn.Prelude.{
  ℕ, ◌≡◌, refl, sym, ap, true, false, some, List, [], ◌∷◌, arith, if◌then◌else◌, All, Bool-cases,
  ◌⊎◌, inl, inr,
}
use autumn.Prelude.Assoc.{lookup}
use autumn.Manager.StreamManager.{StreamInfo}
use autumn.RangePartition.DiscardManager.{
  DiscardManager, or_zero, less64, max_loop, zero_stream, max_discard,
}

-- A counter of a stream is among these, or the first.
abbrev pub Occurs : ℕ × ℕ → ℕ × ℕ → List (ℕ × ℕ) → Type 0
Occurs c first [] = c ≡ first
Occurs c first (d ∷ ds) = (c ≡ first) ⊎ Occurs c d ds

later :
    (c first second : ℕ × ℕ) (ds : List (ℕ × ℕ)) → Occurs c first ds → Occurs c first (second ∷ ds)
later c first second [] h = inl h
later c first second (d ∷ ds) (inl h) = inl h
later c first second (d ∷ ds) (inr h) = inr (inr h)

less64_trans : (a b c : ℕ) → less64 a b ≡ false → less64 b c ≡ false → less64 a c ≡ false
less64_trans a b c h k = ground arith

less64_asymm : (a b : ℕ) → less64 a b ≡ true → less64 b a ≡ false
less64_asymm a b h = ground arith

max_loop-raised :
    (s d : ℕ) (cs : List (ℕ × ℕ)) (id most : ℕ)
    → less64 most d ≡ true
    → max_loop ((s, d) ∷ cs) id most ≡ max_loop cs s d
unfolding max_loop
max_loop-raised s d cs id most h =
    ap (λ b. max_loop cs (if b then s else id) (if b then d else most)) h

max_loop-kept :
    (s d : ℕ) (cs : List (ℕ × ℕ)) (id most : ℕ)
    → less64 most d ≡ false
    → max_loop ((s, d) ∷ cs) id most ≡ max_loop cs id most
unfolding max_loop
max_loop-kept s d cs id most h =
    ap (λ b. max_loop cs (if b then s else id) (if b then d else most)) h

-- The loop ends no lower than it starts.
max_loop-start : (cs : List (ℕ × ℕ)) (id most : ℕ) → less64 (max_loop cs id most).1 most ≡ false
max_loop-start [] id most = unfold max_loop in ground arith
max_loop-start ((s, d) ∷ cs) id most = elim (Bool-cases (less64 most d)) [
  | inl h ↦
      rw (max_loop-raised s d cs id most h)
        (less64_trans (max_loop cs s d).1 d most (max_loop-start cs s d) (less64_asymm most d h))
  | inr h ↦ rw (max_loop-kept s d cs id most h) (max_loop-start cs id most)
]

max_loop-All :
    (cs : List (ℕ × ℕ)) (id most : ℕ)
    → All (λ (c : ℕ × ℕ). less64 (max_loop cs id most).1 c.1 ≡ false) cs
max_loop-All [] id most = tt
max_loop-All ((s, d) ∷ cs) id most = elim (Bool-cases (less64 most d)) [
  | inl h ↦
      subst (λ (r : ℕ × ℕ). All (λ (c : ℕ × ℕ). less64 r.1 c.1 ≡ false) ((s, d) ∷ cs))
        (sym (max_loop-raised s d cs id most h)) (max_loop-start cs s d, max_loop-All cs s d)
  | inr h ↦
      subst (λ (r : ℕ × ℕ). All (λ (c : ℕ × ℕ). less64 r.1 c.1 ≡ false) ((s, d) ∷ cs))
        (sym (max_loop-kept s d cs id most h))
        (
          less64_trans (max_loop cs id most).1 most d (max_loop-start cs id most) h,
          max_loop-All cs id most,
        )
]

max_loop-Occurs : (cs : List (ℕ × ℕ)) (id most : ℕ) → Occurs (max_loop cs id most) (id, most) cs
max_loop-Occurs [] id most = unfold max_loop in refl
max_loop-Occurs ((s, d) ∷ cs) id most = elim (Bool-cases (less64 most d)) [
  | inl h ↦
      subst (λ r. Occurs r (id, most) ((s, d) ∷ cs)) (sym (max_loop-raised s d cs id most h))
        (inr (max_loop-Occurs cs s d))
  | inr h ↦
      subst (λ r. Occurs r (id, most) ((s, d) ∷ cs)) (sym (max_loop-kept s d cs id most h))
        (later _ (id, most) (s, d) cs (max_loop-Occurs cs id most))
]

-- If `MaxDiscard` returns a stream, then this is the one under an ID whose counter, read as an
-- int64, no counter is above, and which is 0 or one of the counters. The ID is that of the counter,
-- or 0 with the counter 0, where no counter is positive.
pub max_discard-All :
    (dsm : DiscardManager) (stream : StreamInfo)
    → max_discard dsm ≡ some stream
    → (id : ℕ) × (most : ℕ) × (stream ≡ or_zero zero_stream (lookup id dsm.streams))
      × Occurs (id, most) (0, 0) dsm.discard_of_stream
      × All (λ (c : ℕ × ℕ). less64 most c.1 ≡ false) dsm.discard_of_stream
unfolding max_discard
max_discard-All dsm stream e = (
  (max_loop dsm.discard_of_stream 0 0).0,
  (max_loop dsm.discard_of_stream 0 0).1,
  returned dsm.discard_of_stream refl,
  max_loop-Occurs dsm.discard_of_stream 0 0,
  max_loop-All dsm.discard_of_stream 0 0,
)
  where
    returned :
        (cs : List (ℕ × ℕ))
        → dsm.discard_of_stream ≡ cs
        → stream ≡ or_zero zero_stream (lookup (max_loop dsm.discard_of_stream 0 0).0 dsm.streams)
    returned [] h = ground (arith, e, h)
    returned (c ∷ cs) h = ground (arith, e, h)
