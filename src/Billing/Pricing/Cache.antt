-- ===== src/Billing/Pricing/Cache.antt =====
-- What the price cache answers, and for how long.
use keygrid.Prelude.{
  ap₂, subst, ap, Bool-cases, inl, inr, ◌∙◌, sym, eq_iff, ℕ, ◌+◌, ◌<◌, ◌≡◌, refl, Bool, true, false,
  List, [], ◌∷◌, Option, none, some, arith, if◌then◌else◌, String, str_eq, lookup,
}
use keygrid.Model.{Provider}
use keygrid.Billing.Pricing.{
  ModelPrice, Pricing, pricing_ttl, or_else, lookup_locked, load_rows, fresh, reload, refresh,
  lookup_price, resolve, billing_name_of,
}

module _ {ℓ} {F : Type ℓ} where
  -- The last row of a table with a name.
  abbrev pub last_row : String → List (ModelPrice F) → Option (ModelPrice F)
  last_row name [] = none
  last_row name (row ∷ rows) =
      or_else (last_row name rows) (if str_eq row.model name then some row else none)

  or_else_assoc :
      (o q r : Option (ModelPrice F)) → or_else o (or_else q r) ≡ or_else (or_else o q) r
  or_else_assoc none q r = refl
  or_else_assoc (some pr) q r = refl

  abbrev load_row : Pricing F → ModelPrice F → Pricing F
  load_row p row =
      if str_eq row.model "*"
      then record p { wildcard = some row }
      else record p { by_model = (row.model, row) ∷ p.by_model }

  load_row-wildcard :
      (p : Pricing F) (row : ModelPrice F)
      → (load_row p row).wildcard
        ≡ or_else (if str_eq row.model "*" then some row else none) p.wildcard
  load_row-wildcard p row = elim (Bool-cases (str_eq row.model "*")) [
    | inl e ↦ (rw e refl)
    | inr e ↦ (rw e refl)
  ]

  load_rows-wildcard :
      (p : Pricing F) (rows : List (ModelPrice F))
      → (load_rows p rows).wildcard ≡ or_else (last_row "*" rows) p.wildcard
  unfolding load_rows
  load_rows-wildcard p [] = refl
  load_rows-wildcard p (row ∷ rows) =
      load_rows-wildcard (load_row p row) rows
      ∙ ap (or_else (last_row "*" rows)) (load_row-wildcard p row)
      ∙ or_else_assoc (last_row "*" rows) (if str_eq row.model "*" then some row else none)
          p.wildcard

  -- A row of the name "*" is none of the models.
  load_row-lookup :
      (p : Pricing F) (row : ModelPrice F) (name : String)
      → str_eq "*" name ≡ false
      → lookup name (load_row p row).by_model
        ≡ or_else (if str_eq row.model name then some row else none) (lookup name p.by_model)
  load_row-lookup p row name h = elim (Bool-cases (str_eq row.model "*")) [
    | inl e ↦ (rw (e, subst (λ n. str_eq n name ≡ false) (sym ((eq_iff row.model "*").0 e)) h) refl)
    | inr e ↦ (rw e (push (str_eq row.model name)))
  ]
    where
      push :
          (k : Bool)
          → (if k then some row else lookup name p.by_model)
            ≡ or_else (if k then some row else none) (lookup name p.by_model)
      push true = refl
      push false = refl

  load_rows-lookup :
      (p : Pricing F) (rows : List (ModelPrice F)) (name : String)
      → str_eq "*" name ≡ false
      → lookup name (load_rows p rows).by_model
        ≡ or_else (last_row name rows) (lookup name p.by_model)
  unfolding load_rows
  load_rows-lookup p [] name h = refl
  load_rows-lookup p (row ∷ rows) name h =
      load_rows-lookup (load_row p row) rows name h
      ∙ ap (or_else (last_row name rows)) (load_row-lookup p row name h)
      ∙ or_else_assoc (last_row name rows) (if str_eq row.model name then some row else none)
          (lookup name p.by_model)

  or_else-none : (o : Option (ModelPrice F)) → or_else o none ≡ o
  or_else-none none = refl
  or_else-none (some pr) = refl

  -- A stale cache whose source answers gives the price of the last row of the table that has the model's name, or
  -- else that of the last row "*", or else none. The model is not called "*".
  pub lookup_price-rows :
      (p : Pricing F) (now : ℕ) (rows : List (ModelPrice F)) (name : String)
      → fresh p now ≡ false
      → str_eq "*" name ≡ false
      → (lookup_price p now (some rows) name).1 ≡ or_else (last_row name rows) (last_row "*" rows)
  unfolding lookup_price refresh lookup_locked
  lookup_price-rows p now rows name e h =
      let q = record p { by_model = []; wildcard = none } in
      ap (λ k. lookup_locked (if k then p else reload p now (some rows)) name) e
      ∙ ap₂ or_else (load_rows-lookup q rows name h ∙ or_else-none (last_row name rows))
          (load_rows-wildcard q rows ∙ or_else-none (last_row "*" rows))

  reload-fresh :
      (p : Pricing F) (t now : ℕ) (source : Option (List (ModelPrice F)))
      → now < t + pricing_ttl
      → fresh (reload p t source) now ≡ true
  unfolding fresh
  reload-fresh p t now none h = ground arith
  reload-fresh p t now (some rows) h = ground arith

  -- Once a stale cache is refreshed at time `t`, whether its source answered or not, it is the cache of every lookup of
  -- the next thirty seconds, whatever the source would answer then; and if the source did not answer at
  -- `t`, the prices are those of the old cache.
  pub cache_holds :
      (p : Pricing F) (t now : ℕ) (source later : Option (List (ModelPrice F)))
      (name other : String)
      → fresh p t ≡ false
      → now < t + pricing_ttl
      → let q = (lookup_price p t source name).0 in
        (lookup_price q now later other ≡ (q, lookup_locked q other))
        × ((lookup_price p t none name).1 ≡ lookup_locked p name)
  unfolding lookup_price refresh lookup_locked
  cache_holds p t now source later name other e h =
      rw e (rw (reload-fresh p t now source h) (refl, refl))

  abbrev found : Option (ModelPrice F) → ModelPrice F → (ModelPrice F)
  found none w = w
  found (some pr) w = pr

  or_else-some :
      (o : Option (ModelPrice F)) (w : ModelPrice F) → or_else o (some w) ≡ some (found o w)
  or_else-some none w = refl
  or_else-some (some pr) w = refl

  -- Where the table has a row "*", no channel's BillingMap is ever applied: every model is billed under its own
  -- name, and at its own row or that of "*".
  pub wildcard_hides_billing :
      (p : Pricing F) (now : ℕ) (source : Option (List (ModelPrice F))) (w : ModelPrice F)
      (name : String) (billing : Option Provider)
      → (refresh p now source).wildcard ≡ some w
      → ((billing_name_of p now source name billing).1 ≡ "")
        × (resolve p now source name billing ≡ resolve p now source name none)
  unfolding billing_name_of resolve lookup_price lookup_locked
  wildcard_hides_billing p now source w name billing e =
      rw
        (ap (or_else (lookup name (refresh p now source).by_model)) e
          ∙ or_else-some (lookup name (refresh p now source).by_model) w)
        (ap (λ k. if k then "" else name) ((eq_iff name name).1 refl), refl)
