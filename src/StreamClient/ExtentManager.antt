-- ===== src/StreamClient/ExtentManager.antt =====
-- streamclient/streamclient.go: AutumnExtentManager, what a client remembers of extents.
use autumn.Prelude.{
  ℕ, ◌≡◌, refl, ap, ◌∙◌, Option, none, some, List, [], ◌∷◌, if◌then◌else◌, ==_refl,
}
use autumn.Prelude.Assoc.{lookup, insert, lookup-insert}

module _ {Info : Type 0} where
  -- The loop ends with the first call of the stream manager that succeeds; none means that all
  -- results given were errors.
  unfoldable pub fetch : List (Option Info) → Option (Info × List (Option Info))
  fetch [] = none
  fetch (none ∷ results) = fetch results
  fetch (some info ∷ results) = some (info, results)

  unfoldable pub set_extent_info : ℕ → Info → List (ℕ × Info) → List (ℕ × Info)
  set_extent_info id info extents = insert id info extents

  abbrev pub remember :
      ℕ
      → List (ℕ × Info)
      → Option (Info × List (Option Info))
      → Option (Info × List (ℕ × Info) × List (Option Info))
  remember id extents none = none
  remember id extents (some (info, results)) = some (info, set_extent_info id info extents, results)

  -- `GetExtentInfo`: the extent, the map and the results that are left.
  unfoldable pub get_extent_info :
      ℕ
      → List (ℕ × Info)
      → List (Option Info)
      → Option (Info × List (ℕ × Info) × List (Option Info))
  unfolding fetch
  get_extent_info id extents results = elim (lookup id extents) [
    | some info ↦ some (info, extents, results)
    | none ↦ remember id extents (fetch results)
  ]

  -- What was set is found without a call.
  pub get_extent_info-set :
      (id : ℕ) (info : Info) (extents : List (ℕ × Info)) (results : List (Option Info))
      → get_extent_info id (set_extent_info id info extents) results
        ≡ some (info, set_extent_info id info extents, results)
  unfolding get_extent_info set_extent_info
  get_extent_info-set id info extents results =
      let found : lookup id (insert id info extents) ≡ some info =
        lookup-insert id id info extents
        ∙ ap (λ b. if b then some info else lookup id extents) (==_refl id) in
      rw (found, get_extent_info) refl
