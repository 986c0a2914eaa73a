-- ===== src/RangePartition/Versions/Layers.antt =====
-- Layers of entries, the newest first, in which the first layer that knows a key has its latest
-- version: why a read can stop at the first memtable that answers.
use mathlib.Core.Path.{subst}
use autumn.Prelude.{
  ℕ, ◌≤◌, ◌<◌, ◌≡◌, refl, sym, ap, ◌∙◌, Option, none, some, List, [], ◌∷◌, ◌++◌, arith,
  if◌then◌else◌, All, le→ltb, append_assoc,
}
use autumn.RangePartition.Keys.{parse_ts}
use autumn.RangePartition.Versions.{
  Entry, Found, later, visible, latest, concat, latest-append, IsStamped, Within, latest-Within,
}

-- The answer of the first that has one.
abbrev pub or_else : Option Found → Option Found → Option Found
or_else none b = b
or_else (some a) b = some a

abbrev pub Shadows : Option Found → Option Found → Type 0
Shadows none b = Unit
Shadows (some a) none = Unit
Shadows (some a) (some b) = b.version ≤ a.version

unfoldable pub IsAbove : List Entry → List Entry → Type 0
IsAbove es fs = (q : List ℕ) → Shadows (latest q es) (latest q fs)

abbrev pub IsLayered : List (List Entry) → Type 0
IsLayered [] = Unit
IsLayered (es ∷ ess) = IsAbove es (concat ess) × IsLayered ess

pub later-Shadows : (a b : Option Found) → Shadows a b → later a b ≡ or_else a b
later-Shadows none b h = refl
later-Shadows (some a) none h = refl
later-Shadows (some a) (some b) h =
    ap (λ t. if t then some b else some a) (le→ltb a.version b.version h)

-- The latest version of all layers is the answer of the first layer that knows the key.
pub latest-concat :
    (q : List ℕ) (es : List Entry) (ess : List (List Entry))
    → IsLayered (es ∷ ess)
    → latest q (concat (es ∷ ess)) ≡ or_else (latest q es) (latest q (concat ess))
latest-concat q es ess (above, layered) =
    latest-append q es (concat ess)
    ∙ later-Shadows (latest q es) (latest q (concat ess)) (unfold IsAbove in above q)

pub concat-append : (ess fss : List (List Entry)) → concat (ess ++ fss) ≡ concat ess ++ concat fss
concat-append [] fss = refl
concat-append (es ∷ ess) fss =
    ap (λ t. es ++ t) (concat-append ess fss) ∙ sym (append_assoc es (concat ess) (concat fss))

pub nil-IsAbove : (fs : List Entry) → IsAbove [] fs
unfolding IsAbove latest
nil-IsAbove fs q = tt

-- An entry that no older layer has a later version than, in front of a layer.
Shadows-cons :
    (seq : ℕ) (q : List ℕ) (e : Entry) (a b : Option Found)
    → seq < parse_ts e.key
    → Within seq b
    → Shadows a b
    → Shadows (later (visible q e) a) b
unfolding visible
Shadows-cons seq q e none none late hb h = ground arith
Shadows-cons seq q e (some a) none late hb h = ground arith
Shadows-cons seq q e none (some b) late hb h = ground arith
Shadows-cons seq q e (some a) (some b) late hb h = ground arith

pub cons-IsLayered :
    (seq : ℕ) (e : Entry) (es : List Entry) (ess : List (List Entry))
    → seq < parse_ts e.key
    → All (IsStamped seq) (concat ess)
    → IsLayered (es ∷ ess)
    → IsLayered ((e ∷ es) ∷ ess)
unfolding IsAbove latest
cons-IsLayered seq e es ess late stamped (above, layered) = (
  (λ q.
      Shadows-cons seq q e (latest q es) (latest q (concat ess)) late
        (latest-Within seq q (concat ess) stamped) (above q)),
  layered,
)

-- A layer of no entries can be left out.
pub drop_nil-IsLayered :
    (ess fss : List (List Entry)) → IsLayered (ess ++ ([] ∷ fss)) → IsLayered (ess ++ fss)
drop_nil-IsLayered [] fss (above, layered) = layered
drop_nil-IsLayered (es ∷ ess) fss (above, layered) =
    let same : concat (ess ++ ([] ∷ fss)) ≡ concat (ess ++ fss) =
      concat-append ess ([] ∷ fss) ∙ sym (concat-append ess fss) in
    (subst (IsAbove es) same above, drop_nil-IsLayered ess fss layered)
