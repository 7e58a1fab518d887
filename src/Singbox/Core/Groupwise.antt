-- ===== src/Singbox/Core/Groupwise.antt =====
-- core/singboxcore/core.go: what every call of the core keeps of its groups, one call at a time.
use proxy_hub.Prelude.{
  ◌≡◌, refl, String, some, List, [], ◌∷◌, inl, inr, All, Option-cases, Bool-cases, if_both,
}
use proxy_hub.Prelude.Text.{str_eq, trim_space}
use proxy_hub.Prelude.Maps.{Map, lookup, insert, delete}
use proxy_hub.Singbox.Errors.{Result, ok, err, ◌>>=◌}
use proxy_hub.Singbox.Manager.{Manager, Creation, created, refused, panicked}
use proxy_hub.Singbox.Group.State.{Group}
use proxy_hub.Singbox.Group.Soundness.{IsSound}
use proxy_hub.Singbox.Group.Sound.Members.{after_call}
use proxy_hub.Singbox.Core.State.{
  Core, map_groups, remove_tags_if_unused, remove_all_tags, created_or_error, find_group,
  with_result,
}

-- Every group of the map is sound.
abbrev pub AllSound : Map Group → Type 0
AllSound = All (λ (e : String × Group). IsSound e.1)

pub insert-AllSound :
    (id : String) (g : Group) (gs : Map Group) → IsSound g → AllSound gs → AllSound (insert id g gs)
unfolding insert
insert-AllSound id g [] h k = (h, tt)
insert-AllSound id g ((j, i) ∷ gs) h k =
    if_both AllSound (str_eq j id) (h, k.1) (k.0, insert-AllSound id g gs h k.1)

pub delete-AllSound : (id : String) (gs : Map Group) → AllSound gs → AllSound (delete id gs)
unfolding delete
delete-AllSound id [] k = tt
delete-AllSound id ((j, i) ∷ gs) k =
    if_both AllSound (str_eq j id) (delete-AllSound id gs k.1) (k.0, delete-AllSound id gs k.1)

pub lookup-AllSound :
    (id : String) (g : Group) (gs : Map Group) → AllSound gs → lookup id gs ≡ some g → IsSound g
unfolding lookup
lookup-AllSound id g [] k e = cc
lookup-AllSound id g ((j, i) ∷ gs) k e = elim (Bool-cases (str_eq j id)) [
  | inl q ↦ let same : some i ≡ some g = (rw q at e) in let q' : i ≡ g = cc in rw q' at k.0
  | inr q ↦ lookup-AllSound id g gs k.1 (rw q at e)
]

pub map_groups-AllSound :
    (f : Group → Group) (gs : Map Group)
    → ((g : Group) → IsSound g → IsSound (f g))
    → AllSound gs
    → AllSound (map_groups f gs)
map_groups-AllSound f [] h k = tt
map_groups-AllSound f ((j, i) ∷ gs) h k = (h i k.0, map_groups-AllSound f gs h k.1)

-- A call on a group that succeeds leaves a sound one.
abbrev pub ResultIsSound : Result Group → Type 0
ResultIsSound (ok g) = IsSound g
ResultIsSound (err e) = Unit

pub after_call-ResultIsSound :
    (g : Group) (r : Result Group) → IsSound (after_call g r) → ResultIsSound r
after_call-ResultIsSound g (ok g') h = h
after_call-ResultIsSound g (err e) h = tt

module _ (m : Manager) where
  -- The core after a call that returns an error, in which case it is as before.
  abbrev pub core_after : Core m → Result (Core m) → Core m
  core_after c (ok c') = c'
  core_after c (err e) = c

  pub remove_all_tags-groups :
      (c : Core m) (ready : List (List String)) → (remove_all_tags m c ready).0.groups ≡ c.groups
  unfolding remove_all_tags remove_tags_if_unused
  remove_all_tags-groups c [] = refl
  remove_all_tags-groups c (tags ∷ more) =
      remove_all_tags-groups (remove_tags_if_unused m c tags).0 more

  pub created_or_error-groups :
      (c : Core m) (made : Creation m.Store)
      → (core_after c (created_or_error m c made)).groups ≡ c.groups
  created_or_error-groups c (created s) = refl
  created_or_error-groups c (refused e) = refl
  created_or_error-groups c panicked = refl

  pub with_result-AllSound :
      (c : Core m) (id : String) (r : Result Group)
      → ResultIsSound r
      → AllSound c.groups
      → AllSound (core_after c (with_result m c id r)).groups
  with_result-AllSound c id (ok g) h k = insert-AllSound (trim_space id) g c.groups h k
  with_result-AllSound c id (err e) h k = k

  -- A call of the core that is a call on one of its groups.
  pub group_call-AllSound :
      (c : Core m) (id : String) (f : Group → Result Group)
      → ((g : Group) → IsSound g → IsSound (after_call g (f g)))
      → AllSound c.groups
      → AllSound (core_after c (find_group m c id >>= λ g. with_result m c id (f g))).groups
  group_call-AllSound c id f h k = elim (Option-cases (lookup (trim_space id) c.groups)) [
    | inl e ↦ rw (e, core_after) k
    | inr (g, e) ↦
        rw (e, core_after)
          (with_result-AllSound c id (f g)
            (after_call-ResultIsSound g (f g)
              (h g (lookup-AllSound (trim_space id) g c.groups k e)))
            k)
  ]
