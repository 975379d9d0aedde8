-- ===== src/Server/Models/Keyed.antt =====
-- The model rows of the runtime snapshot (pkg/server/server.go) and their keys.
use ultiproxy.Base.{
  ◌≡◌, refl, Bool, some, List, [], ◌∷◌, Text, if_both, lookup, insert, erase, erase_all, text_eq,
  text_eq_iff, arith, Bool-cases, Option-cases, inl, inr,
}
use ultiproxy.State.Types.{ModelRuntime}
use ultiproxy.Server.Catalog.{Aliases}
use ultiproxy.Server.Models.{synced_row, install_all, gone, sync_models, toggled}

-- Every row of the state's models has its own key for its id.
abbrev pub AllKeyed : List (Text × ModelRuntime) → Type 0
AllKeyed [] = Unit {0}
AllKeyed ((k, m) ∷ rest) = (m.id ≡ k) × AllKeyed rest

insert-AllKeyed :
    (k : Text) (m : ModelRuntime) (models : List (Text × ModelRuntime))
    → m.id ≡ k
    → AllKeyed models
    → AllKeyed (insert k m models)
unfolding insert
insert-AllKeyed k m [] h p = (h, tt)
insert-AllKeyed k m ((j, n) ∷ rest) h (q, p) =
    if_both AllKeyed (text_eq j k) _ _ (h, p) (q, insert-AllKeyed k m rest h p)

erase-AllKeyed :
    (k : Text) (models : List (Text × ModelRuntime)) → AllKeyed models → AllKeyed (erase k models)
unfolding erase
erase-AllKeyed k [] p = tt
erase-AllKeyed k ((j, n) ∷ rest) (q, p) =
    let later = erase-AllKeyed k rest p in if_both AllKeyed (text_eq j k) _ _ later (q, later)

erase_all-AllKeyed :
    (ks : List Text) (models : List (Text × ModelRuntime))
    → AllKeyed models
    → AllKeyed (erase_all ks models)
unfolding erase_all
erase_all-AllKeyed [] models p = p
erase_all-AllKeyed (k ∷ ks) models p =
    erase-AllKeyed k (erase_all ks models) (erase_all-AllKeyed ks models p)

pub lookup-keyed :
    (k : Text) (m : ModelRuntime) (models : List (Text × ModelRuntime))
    → AllKeyed models
    → lookup k models ≡ some m
    → m.id ≡ k
unfolding lookup
lookup-keyed k m [] p h = cc
lookup-keyed k m ((j, n) ∷ rest) (q, p) h = elim (Bool-cases (text_eq j k)) [
  | inl e ↦
      let same : j ≡ k = (text_eq_iff j k).0 e in
      let found : n ≡ m = ground (arith, e) in ground (arith, found, q, same)
  | inr e ↦ lookup-keyed k m rest p (ground (arith, e))
]

module _ {F : Type 0} where
  install_all-AllKeyed :
      (aliases : Aliases F) (models : List (Text × ModelRuntime))
      → AllKeyed models
      → AllKeyed (install_all aliases models)
  unfolding install_all synced_row
  install_all-AllKeyed [] models p = p
  install_all-AllKeyed ((a, e) ∷ rest) models p =
      insert-AllKeyed a _ (install_all rest models) refl (install_all-AllKeyed rest models p)

toggled-id :
    (k : Text) (on : Bool) (models : List (Text × ModelRuntime))
    → AllKeyed models
    → (toggled k on (lookup k models)).id ≡ k
toggled-id k on models p = elim (Option-cases (lookup k models)) [
  | inl e ↦ rw e refl
  | inr (m, e) ↦ rw e (lookup-keyed k m models p e)
]

-- What changes the rows: ToggleModel and syncCatalogToState, after whichever changes of the catalog.
pub data Change (F : Type 0) : Type 0 where
  toggles : Text → Bool → Change F
  syncs : (owned : List Text) → Aliases F → Change F

module _ {F : Type 0} where
  abbrev pub changed : Change F → List (Text × ModelRuntime) → List (Text × ModelRuntime)
  changed (toggles id on) models = insert id (toggled id on (lookup id models)) models
  changed (syncs owned aliases) models = sync_models owned aliases models

  abbrev pub all_changed : List (Change F) → List (Text × ModelRuntime) → List (Text × ModelRuntime)
  all_changed [] models = models
  all_changed (c ∷ cs) models = all_changed cs (changed c models)

  changed-AllKeyed :
      (c : Change F) (models : List (Text × ModelRuntime))
      → AllKeyed models
      → AllKeyed (changed c models)
  unfolding sync_models
  changed-AllKeyed (toggles id on) models p =
      insert-AllKeyed id _ models (toggled-id id on models p) p
  changed-AllKeyed (syncs owned aliases) models p =
      install_all-AllKeyed aliases _ (erase_all-AllKeyed (gone owned aliases) models p)

  pub all_changed-AllKeyed :
      (cs : List (Change F)) (models : List (Text × ModelRuntime))
      → AllKeyed models
      → AllKeyed (all_changed cs models)
  all_changed-AllKeyed [] models p = p
  all_changed-AllKeyed (c ∷ cs) models p =
      all_changed-AllKeyed cs (changed c models) (changed-AllKeyed c models p)
