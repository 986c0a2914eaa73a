-- ===== src/RangePartition/Versions.antt =====
-- What a read of a key at a version finds among written entries: the meaning that the memtables, the
-- tables and the partition share.
pub mod Layers
pub mod Readable
use mathlib.Core.Path.{subst}
use autumn.Prelude.{
  length, ◌^◌, ℕ, ◌≤◌, ◌<◌, ◌≡◌, refl, sym, ap, ◌∙◌, Bool, true, false, ◌&&◌, Option, none, some,
  List, [], ◌∷◌, ◌++◌, arith, ltb, leb, if◌then◌else◌, All, Bool-cases, inl, inr,
}
use autumn.RangePartition.Keys.{same_key, parse_ts}
use autumn.RangePartition.Values.{ValueStruct}

-- An internal key and its value, and a value with the version that it was found under.
pub record Entry : Type 0 where
  pub key : List ℕ
  pub vs : ValueStruct

pub record Found : Type 0 where
  pub version : ℕ
  pub vs : ValueStruct

-- The later one of two, and the first of two of one version.
abbrev pub later : Option Found → Option Found → Option Found
later none b = b
later (some a) none = some a
later (some a) (some b) = if ltb a.version b.version then some b else some a

-- The entry as a read of `q` sees it: of the same user key, and not later than `q`'s version.
unfoldable pub visible : List ℕ → Entry → Option Found
visible q e =
    if same_key q e.key && leb (parse_ts e.key) (parse_ts q)
    then some (record { version = parse_ts e.key; vs = e.vs })
    else none

-- The latest version that a read of `q` sees.
unfoldable pub latest : List ℕ → List Entry → Option Found
latest q [] = none
latest q (e ∷ es) = later (visible q e) (latest q es)

abbrev pub concat : List (List Entry) → List Entry
concat [] = []
concat (es ∷ ess) = es ++ concat ess

pub later_assoc : (a b c : Option Found) → later (later a b) c ≡ later a (later b c)
later_assoc none b c = refl
later_assoc (some a) none c = refl
later_assoc (some a) (some b) none = ground arith
later_assoc (some a) (some b) (some c) = ground arith

pub later-none : (a : Option Found) → later a none ≡ a
later-none none = refl
later-none (some a) = refl

pub latest-append :
    (q : List ℕ) (es fs : List Entry) → latest q (es ++ fs) ≡ later (latest q es) (latest q fs)
unfolding latest
latest-append q [] fs = refl
latest-append q (e ∷ es) fs =
    ap (later (visible q e)) (latest-append q es fs)
    ∙ sym (later_assoc (visible q e) (latest q es) (latest q fs))

-- The key's length fits the 16 bits in which skip lists and tables keep it.
abbrev pub IsShort : Entry → Type 0
IsShort e = length e.key < 2 ^ 16

-- Versions are positive, and not later than the partition's sequence number, and keys are short.
unfoldable pub IsStamped : ℕ → Entry → Type 0
IsStamped seq e = (0 < parse_ts e.key) × (parse_ts e.key ≤ seq) × IsShort e

pub IsStamped-IsShort : (seq : ℕ) (es : List Entry) → All (IsStamped seq) es → All IsShort es
unfolding IsStamped
IsStamped-IsShort seq [] h = tt
IsStamped-IsShort seq (e ∷ es) ((positive, below, short), hs) = (short, IsStamped-IsShort seq es hs)

abbrev pub Within : ℕ → Option Found → Type 0
Within seq none = Unit
Within seq (some a) = (0 < a.version) × (a.version ≤ seq)

later-Within : (seq : ℕ) (a b : Option Found) → Within seq a → Within seq b → Within seq (later a b)
later-Within seq none b ha hb = hb
later-Within seq (some a) none ha hb = ha
later-Within seq (some a) (some b) ha hb = elim (Bool-cases (ltb a.version b.version)) [
  | inl e ↦ subst (Within seq) (sym (ap (λ t. if t then some b else some a) e)) hb
  | inr e ↦ subst (Within seq) (sym (ap (λ t. if t then some b else some a) e)) ha
]

visible-Within : (seq : ℕ) (q : List ℕ) (e : Entry) → IsStamped seq e → Within seq (visible q e)
unfolding visible IsStamped
visible-Within seq q e h =
    elim (Bool-cases (same_key q e.key && leb (parse_ts e.key) (parse_ts q))) [
      | inl t ↦
          subst
            (λ b.
              Within seq
                (if b then some (record { version = parse_ts e.key; vs = e.vs }) else none))
            (sym t) (h.0, h.1)
      | inr t ↦
          subst
            (λ b.
              Within seq
                (if b then some (record { version = parse_ts e.key; vs = e.vs }) else none))
            (sym t) tt
    ]

pub latest-Within :
    (seq : ℕ) (q : List ℕ) (es : List Entry) → All (IsStamped seq) es → Within seq (latest q es)
unfolding latest
latest-Within seq q [] h = tt
latest-Within seq q (e ∷ es) (he, hes) =
    later-Within seq (visible q e) (latest q es) (visible-Within seq q e he)
      (latest-Within seq q es hes)
