-- ===== src/Server/Catalog/Durable.antt =====
-- What a restart makes of the catalog: the runtime aliases survive, and so do the configured ones.
use ultiproxy.Base.{
  inl, inr, ◌⊎◌, ◌≡◌, refl, ap, sym, subst, ◌∙◌, Bool, true, false, Option, none, some, List, [],
  ◌∷◌, ◌++◌, ◌||◌, Text, if◌then◌else◌, is_empty, is_some, lookup, insert, erase, lookup-insert,
  lookup-erase, text_eq, text_eq_refl, arith, Bool-cases,
}
use ultiproxy.Server.Catalog.{
  ModelAlias, Aliases, ModelCatalog, FileRead, missing, holds, CatalogError, persist_failed,
  overlay, load, new_model_catalog, get, publish, set, Call, sets, removes, step, run,
}

module _ {F : Type 0} where
  abbrev pub first_of_both : Option (ModelAlias F) → Option (ModelAlias F) → Option (ModelAlias F)
  first_of_both none b = b
  first_of_both (some a) b = some a

  -- The rows of `extra` win over those of `base`.
  pub lookup-overlay :
      (j : Text) (extra base : Aliases F)
      → lookup j (overlay extra base) ≡ first_of_both (lookup j extra) (lookup j base)
  unfolding overlay lookup
  lookup-overlay j [] base = refl
  lookup-overlay j ((k, v) ∷ extra) base =
      ground (arith, lookup-insert k j v (overlay extra base), lookup-overlay j extra base)

  abbrev read_file : Option (Aliases F) → FileRead F
  read_file none = missing
  read_file (some m) = holds m

  -- The aliases that a process started now would have, given the configured ones.
  abbrev pub restarted : Aliases F → ModelCatalog F → Aliases F
  restarted config c = elim (load (overlay config []) (read_file c.file)) [
    | inl c' ↦ c'.aliases
    | inr e ↦ []
  ]

  -- The file and the live table give the same aliases over the configured ones.
  abbrev pub IsDurable : Aliases F → ModelCatalog F → Type 0
  IsDurable config c =
      (c.has_path ≡ true)
      × ((j : Text)
          → lookup j (restarted config c) ≡ first_of_both (lookup j c.aliases) (lookup j config))

  overlay-nil : (j : Text) (config : Aliases F) → lookup j (overlay config []) ≡ lookup j config
  unfolding lookup
  overlay-nil j config = ground (arith, lookup-overlay j config [])

  -- `publish` with a persistence file.
  published : Aliases F → Bool → ModelCatalog F → ModelCatalog F × Option CatalogError
  published next written c =
      if written
      then (record c { aliases = next; file = some next }, none)
      else (c, some persist_failed)

  publish-published :
      (next : Aliases F) (written : Bool) (c : ModelCatalog F)
      → c.has_path ≡ true
      → publish next written c ≡ published next written c
  unfolding publish published
  publish-published next written c p =
      ap (λ b. if b then published next written c else (record c { aliases = next }, none)) p

  published-IsDurable :
      (config next : Aliases F) (written : Bool) (c : ModelCatalog F)
      → IsDurable config c
      → IsDurable config (published next written c).0
  unfolding published
  published-IsDurable config next true c (p, h) = (
    p,
    λ j.
        lookup-overlay j next (overlay config [])
        ∙ ap (first_of_both (lookup j next)) (overlay-nil j config),
  )
  published-IsDurable config next false c h = h

  publish-IsDurable :
      (config next : Aliases F) (written : Bool) (c : ModelCatalog F)
      → IsDurable config c
      → IsDurable config (publish next written c).0
  publish-IsDurable config next written c (p, h) =
      subst (λ r. IsDurable config r.0) (sym (publish-published next written c p))
        (published-IsDurable config next written c (p, h))

  step-IsDurable :
      (config : Aliases F) (c : ModelCatalog F) (m : Call F)
      → IsDurable config c
      → IsDurable config (step c m)
  unfolding step
  step-IsDurable config c (sets alias entry written) h =
      elim (Bool-cases (is_empty alias || is_empty entry.provider || is_empty entry.upstream)) [
        | inl e ↦ rw (e, step) h
        | inr e ↦ rw (e, step) (publish-IsDurable config (insert alias entry c.aliases) written c h)
      ]
  step-IsDurable config c (removes alias written) h =
      publish-IsDurable config (erase alias c.aliases) written c h

  run-IsDurable :
      (config : Aliases F) (c : ModelCatalog F) (ms : List (Call F))
      → IsDurable config c
      → IsDurable config (run c ms)
  unfolding run
  run-IsDurable config c [] h = h
  run-IsDurable config c (m ∷ ms) h =
      run-IsDurable config (step c m) ms (step-IsDurable config c m h)

  loaded : FileRead F → ModelCatalog F ⊎ CatalogError → ModelCatalog F → ModelCatalog F
  loaded read (inl c) d = c
  loaded read (inr e) d = d

  new-IsDurable :
      (config : Aliases F) (file : Option (Aliases F)) (c : ModelCatalog F)
      → new_model_catalog config true (read_file file) ≡ inl c
      → IsDurable config c
  unfolding new_model_catalog loaded
  new-IsDurable config none c e =
      subst (IsDurable config) (ap (λ x. loaded missing x c) e)
        (refl, λ j. ground (arith, overlay-nil j config))
  new-IsDurable config (some m) c e =
      subst (IsDurable config) (ap (λ x. loaded missing x c) e)
        (refl, λ j. ground (arith, overlay-nil j config, lookup-overlay j m (overlay config [])))

  -- A catalog with a persistence file, started on a missing or a valid file: after any mutations,
  -- whichever of their writes fail, a restart has every live alias with the entry that it has now,
  -- and beside those only the configured aliases that are no longer live.
  pub restart_restores :
      (config : Aliases F) (file : Option (Aliases F)) (c : ModelCatalog F) (ms : List (Call F))
      (alias : Text)
      → new_model_catalog config true (read_file file) ≡ inl c
      → lookup alias (restarted config (run c ms))
        ≡ first_of_both (get alias (run c ms)) (lookup alias config)
  unfolding get
  restart_restores config file c ms alias e =
      (run-IsDurable config c ms (new-IsDurable config file c e)).1 alias

  run-append :
      (c : ModelCatalog F) (ms : List (Call F)) (m : Call F)
      → run c (ms ++ m ∷ []) ≡ step (run c ms) m
  unfolding run
  run-append c [] m = refl
  run-append c (k ∷ ms) m = run-append (step c k) ms m

  get-step-removes :
      (alias : Text) (c : ModelCatalog F)
      → c.has_path ≡ true
      → get alias (step c (removes alias true)) ≡ none
  unfolding get step published
  get-step-removes alias c p =
      ap (λ r. lookup alias r.0.aliases) (publish-published (erase alias c.aliases) true c p)
      ∙ lookup-erase alias alias c.aliases
      ∙ rw text_eq_refl

  -- The removal of a configured alias does not outlive the process: once it is removed, with
  -- its write done, the catalog does not have it, and a restart has it again as configured.
  pub removal_forgotten :
      (config : Aliases F) (file : Option (Aliases F)) (c : ModelCatalog F) (ms : List (Call F))
      (alias : Text) (entry : ModelAlias F)
      → new_model_catalog config true (read_file file) ≡ inl c
      → lookup alias config ≡ some entry
      → let d = run c (ms ++ removes alias true ∷ []) in
        (get alias d ≡ none) × (lookup alias (restarted config d) ≡ some entry)
  removal_forgotten config file c ms alias entry e k =
      let h = (run-IsDurable config c ms (new-IsDurable config file c e)).0 in
      let gone : get alias (run c (ms ++ removes alias true ∷ [])) ≡ none =
        ap (get alias) (run-append c ms (removes alias true))
        ∙ get-step-removes alias (run c ms) h in
      (
        gone,
        restart_restores config file c (ms ++ removes alias true ∷ []) alias e
            ∙ ap (λ x. first_of_both x (lookup alias config)) gone
            ∙ k,
      )

  -- Set stores the entry under its alias alone and reports nothing, or it reports an error and
  -- leaves the catalog and its file as they were: the latter if the alias, its provider or its
  -- upstream is empty, or if there is a file and its write fails.
  pub get-set :
      (alias other : Text) (entry : ModelAlias F) (written : Bool) (c : ModelCatalog F)
      → let (d, err) = set alias entry written c in
        ((err ≡ none) × (get other d ≡ (if text_eq alias other then some entry else get other c)))
        ⊎ (is_some err ≡ true)
          × (d ≡ c)
          × ((is_empty alias || is_empty entry.provider || is_empty entry.upstream ≡ true)
              ⊎ (c.has_path ≡ true) × (written ≡ false))
  unfolding set get
  get-set alias other entry written c = ground (arith, lookup-insert alias other entry c.aliases)
