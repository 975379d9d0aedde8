-- ===== src/Server/Listing/Agree.antt =====
-- handleModels and collectListedIDs of pkg/server/handlers.go against each other, and the rows that
-- they both read.
use mathlib.Core.List.{map-append, map-map}
use ultiproxy.Base.{
  ◌≡◌, refl, ◌∙◌, ap, sym, subst, not, ◌&&◌, Option, none, some, List, [], ◌∷◌, ◌++◌, map, Text,
  is_empty, is_some, lookup, elem, keys, elem-keys, text_eq_iff, arith, Bool-cases, Option-cases,
  inl, inr, sort_by, elem-sort_by,
}
use ultiproxy.State.Types.{ModelRuntime}
use ultiproxy.State.Manager.{StateManager}
use ultiproxy.Provider.Registry.{Registry}
use ultiproxy.Server.Catalog.{ModelCatalog, get}
use ultiproxy.Server.Models.{canonical_alias_id}
use ultiproxy.Server.Models.Keyed.{
  AllKeyed, Change, all_changed, all_changed-AllKeyed, lookup-keyed,
}
use ultiproxy.Server.Metadata.{ModelInfo, Discovery}
use ultiproxy.Server.Listing.{
  Listing, Candidate, ids_of, is_off, row_listed, alias_listed, sorted, visible, alias_candidates,
  state_candidates, lane_candidates, lanes_candidates, cache_candidates, default_candidates,
  visible_candidates, models_candidates, registry_candidates, catalog_candidates, all_candidates,
  handle_models,
}
use ultiproxy.Server.Listing.Collect.{
  cache_ids, default_ids, visible_ids, models_ids, registry_ids, lane_ids, alias_ids, row_ids,
  lanes_ids, collected, collect_listed_ids,
}
use ultiproxy.Server.Listing.Once.{elem-append, elem-add_ids, ids_of-add_all}

abbrev pub id_of : Candidate → Text
id_of c = c.id

map_id : (l : List Text) → map (λ t. t) l ≡ l
map_id [] = refl
map_id (t ∷ l) = ap (λ ts. t ∷ ts) (map_id l)

-- A lane's ids, sorted or not.
elem-candidates :
    {A : Type 0} (key : A → Text) (g : A → Candidate) (x : Text) (items : List A)
    → elem x (map id_of (map g (sort_by key items))) ≡ elem x (map (λ a. (g a).id) items)
elem-candidates key g x items =
    ap (elem x) (map-map id_of g (sort_by key items)) ∙ elem-sort_by key (λ a. (g a).id) x items

-- The rows of the state, if there is one.
abbrev pub rows_of : Option StateManager → List (Text × ModelRuntime)
rows_of none = []
rows_of (some sm) = sm.snapshot.models

module _ {F : Type 0} where
  catalog_alike :
      (l : Listing F) (c : ModelCatalog F) (aliases : List Text)
      → map id_of (alias_candidates l c aliases) ≡ alias_ids l c aliases
  unfolding alias_candidates alias_ids
  catalog_alike l c [] = refl
  catalog_alike l c (a ∷ aliases) = elim (Option-cases (get a c)) [
    | inl e ↦ rw e (catalog_alike l c aliases)
    | inr (entry, e) ↦ elim (Bool-cases (alias_listed l a entry)) [
      | inl h ↦ rw (e, h) (ap (λ ids. canonical_alias_id entry ∷ ids) (catalog_alike l c aliases))
      | inr h ↦ rw (e, h) (catalog_alike l c aliases)
    ]
  ]

  elem-state :
      (x : Text) (l : Listing F) (models : List (Text × ModelRuntime)) (ks : List Text)
      → AllKeyed models
      → elem x (map id_of (state_candidates l models ks))
        ≡ (elem x ks && (is_some (lookup x models) && row_listed l x))
  unfolding state_candidates elem
  elem-state x l models [] p = refl
  elem-state x l models (k ∷ ks) p = elim (Option-cases (lookup k models)) [
    | inl e ↦ rw e (ground (arith, e, text_eq_iff k x, elem-state x l models ks p))
    | inr (m, e) ↦ elim (Bool-cases (row_listed l k)) [
      | inl h ↦
          rw (e, h)
            (ground (
              arith,
              e,
              h,
              text_eq_iff k x,
              lookup-keyed k m models p e,
              elem-state x l models ks p,
            ))
      | inr h ↦ rw (e, h) (ground (arith, e, h, text_eq_iff k x, elem-state x l models ks p))
    ]
  ]

  elem-row_ids :
      (x : Text) (l : Listing F) (c : ModelCatalog F) (ks : List Text)
      → elem x (row_ids l c ks) ≡ (elem x ks && (not (is_some (get x c)) && not (is_off l x)))
  unfolding row_ids elem
  elem-row_ids x l c [] = refl
  elem-row_ids x l c (k ∷ ks) = elim (Bool-cases (not (is_some (get k c)) && not (is_off l k))) [
    | inl h ↦ rw h (ground (arith, h, text_eq_iff k x, elem-row_ids x l c ks))
    | inr h ↦ rw h (ground (arith, h, text_eq_iff k x, elem-row_ids x l c ks))
  ]

  elem-cache :
      (x : Text) (l : Listing F) (lane : Text) (d : Discovery) (models : Option (List Text))
      (infos : Option (List ModelInfo))
      → elem x (map id_of (cache_candidates l lane (record d { cached_model_info = infos }) models))
        ≡ elem x (cache_ids lane (record d { cached_model_info = infos }) models)
  elem-cache x l lane d none infos = refl
  elem-cache x l lane d (some models) none = elem-candidates (λ m. m) _ x models
  elem-cache x l lane d (some models) (some infos) = elem-candidates (λ m. m.info_id) _ x infos

  default_alike :
      (l : Listing F) (lane : Text) (m : Option Text)
      → map id_of (default_candidates l lane m) ≡ default_ids lane m
  default_alike l lane none = refl
  default_alike l lane (some []) = refl
  default_alike l lane (some (c ∷ m)) = refl

  elem-lane :
      (x : Text) (l : Listing F) (lane : Text) (d : Discovery)
      → elem x (map id_of (lane_candidates l lane d)) ≡ elem x (lane_ids lane d)
  unfolding lane_candidates lane_ids
  elem-lane x l lane d =
      let cache = cache_candidates l lane d d.cached_models in
      let default = default_candidates l lane d.default_model in
      ap (elem x) (map-append id_of cache default)
      ∙ elem-append x (map id_of cache) (map id_of default)
      ∙ ground (
        arith,
        elem-cache x l lane d d.cached_models d.cached_model_info,
        default_alike l lane d.default_model,
        elem-append x (cache_ids lane d d.cached_models) (default_ids lane d.default_model),
      )

  elem-visible :
      (x : Text) (l : Listing F) (lane : Text) (d : Option Discovery)
      → elem x (map id_of (visible_candidates l lane d)) ≡ elem x (visible_ids lane d)
  elem-visible x l lane none = refl
  elem-visible x l lane (some d) = elem-lane x l lane d

  pub elem-lanes :
      (x : Text) (l : Listing F) (r : Registry) (lanes : List Text)
      → elem x (map id_of (lanes_candidates l r lanes)) ≡ elem x (lanes_ids l r lanes)
  unfolding lanes_candidates lanes_ids
  elem-lanes x l r [] = refl
  elem-lanes x l r (lane ∷ lanes) =
      let here = visible_candidates l lane (visible l r lane) in
      ap (elem x) (map-append id_of here (lanes_candidates l r lanes))
      ∙ elem-append x (map id_of here) (map id_of (lanes_candidates l r lanes))
      ∙ ground (
        arith,
        elem-visible x l lane (visible l r lane),
        elem-lanes x l r lanes,
        elem-append x (visible_ids lane (visible l r lane)) (lanes_ids l r lanes),
      )

  elem-registry :
      (x : Text) (l : Listing F) (r : Option Registry)
      → elem x (map id_of (registry_candidates l r)) ≡ elem x (registry_ids l r)
  elem-registry x l none = refl
  elem-registry x l (some r) = elem-lanes x l r _

  elem-models :
      (x : Text) (l : Listing F) (c : ModelCatalog F) (sm : Option StateManager)
      → l.router.catalog ≡ some c
      → AllKeyed (rows_of sm)
      → elem x (map id_of (models_candidates l sm)) ≡ elem x (models_ids l c sm)
  elem-models x l c none h p = refl
  elem-models x l c (some sm) h p =
      let ks = keys sm.snapshot.models in
      elem-state x l sm.snapshot.models (sort_by (λ k. k) ks) p
      ∙ rw h (
          ground (
            arith,
            elem-keys x sm.snapshot.models,
            map_id ks,
            map_id (sort_by (λ k. k) ks),
            elem-sort_by (λ k. k) (λ k. k) x ks,
            elem-row_ids x l c ks,
          ))

  -- Where every row has its key for its id, an id is in both lists or in none.
  same_listed :
      (l : Listing F) (c : ModelCatalog F) (x : Text)
      → l.router.catalog ≡ some c
      → AllKeyed (rows_of l.router.sm)
      → elem x (ids_of (handle_models l)) ≡ elem x (collect_listed_ids l c)
  unfolding handle_models collect_listed_ids all_candidates collected elem
  same_listed l c x h p =
      let rows = models_candidates l l.router.sm in
      let lanes = registry_candidates l l.router.registry in
      let rows' = models_ids l c l.router.sm in
      let lanes' = registry_ids l l.router.registry in
      ap (elem x) (ids_of-add_all (all_candidates l) [])
      ∙ elem-add_ids x (map id_of (all_candidates l)) []
      ∙ ap (λ b. not (is_empty x) && b)
          (ap (λ o. elem x (map id_of (catalog_candidates l o ++ (rows ++ lanes)))) h
            ∙ ap (elem x) (map-append id_of (alias_candidates l c (sorted c)) (rows ++ lanes))
            ∙ ap (λ ids. elem x (map id_of (alias_candidates l c (sorted c)) ++ ids))
                (map-append id_of rows lanes)
            ∙ ground (
              arith,
              catalog_alike l c (sorted c),
              elem-append x (map id_of (alias_candidates l c (sorted c)))
                  (map id_of rows ++ map id_of lanes),
              elem-append x (map id_of rows) (map id_of lanes),
              elem-models x l c l.router.sm h p,
              elem-registry x l l.router.registry,
              elem-append x (alias_ids l c (sorted c)) (rows' ++ lanes'),
              elem-append x rows' lanes',
            ))
      ∙ sym (elem-add_ids x (collected l c) [])

-- The list of GET /v1/models and the ids that set_model_info accepts are the same: where there is a
-- catalog and the rows of the state have come about by toggles and by syncs with catalogs, an id
-- is in the list of handleModels exactly if it is in that of collectListedIDs.
pub listings_agree :
    {F : Type 0} (l : Listing F) (c : ModelCatalog F) (changes : List (Change F)) (x : Text)
    → l.router.catalog ≡ some c
    → rows_of l.router.sm ≡ all_changed changes []
    → elem x (ids_of (handle_models l)) ≡ elem x (collect_listed_ids l c)
listings_agree l c changes x h rows =
    same_listed l c x h (subst AllKeyed (sym rows) (all_changed-AllKeyed changes [] tt))
