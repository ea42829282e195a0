-- ===== src/Context/Session/Validity.antt =====
-- Which items an addition accepts, and that it changes nothing if it refuses one.
use semanticore.Prelude.{
  ◌≡◌, ◌↔◌, ◌⊎◌, refl, inl, inr, Bool, true, false, not, Option, none, some, List, [], ◌∷◌, ok, err,
  Result-cases, >>=-ok, Bool-cases, Option-cases, arith, All, any, is_some,
}
use semanticore.Prelude.OrdMap
use semanticore.Prelude.OrdMap.{OrdMap}
use semanticore.Model.{graph_eq}
use semanticore.Storage.{Storage}
use semanticore.Context.Scope.{ContextScope, ItemId}
use semanticore.Context.Decimal.{is_blank}
use semanticore.Context.Platform.{Platform}
use semanticore.Context.Item.{ContextPayload, ContextItem}
use semanticore.Context.Error.{SessionError}
use semanticore.Context.Session.State.{Entry, Session, Failure, ◌>>=◌}
use semanticore.Context.Session.Checks.{
  outside_default, first_unknown, check_payload, check_embedding, check_derived, check_source,
  validate, validate_all,
}
use semanticore.Context.Session.Operations.{add_batch}

any-false_iff {ℓ} :
    {A : Type ℓ} (t : A → Bool) (xs : List A) → (any t xs ≡ false) ↔ All (λ x. t x ≡ false) xs
unfolding any
any-false_iff t [] = (λ h. tt, λ h. refl)
any-false_iff t (x ∷ xs) =
    let (f, g) = any-false_iff t xs in
    (λ h. (ground arith, f (ground arith)), λ h. ground (arith, h.0, g h.1))

first_unknown_iff {ℓ} :
    {V : Type ℓ} (items : OrdMap V) (ids : List ItemId)
    → (first_unknown items ids ≡ none) ↔ All (λ id. is_some (OrdMap.get id items) ≡ true) ids
unfolding first_unknown
first_unknown_iff items [] = (λ h. tt, λ h. refl)
first_unknown_iff items (id ∷ ids) =
    let (f, g) = first_unknown_iff items ids in
    elim (Bool-cases (is_some (OrdMap.get id items))) [
      | inl t ↦ (λ h. (t, f (rw t at h)), λ h. rw t (g h.1))
      | inr t ↦ (λ h. absurd (cc (rw t at h)), λ h. absurd (cc (t, h.0)))
    ]

module _ ⦃p : Platform⦄ where
  -- triples are in the default graph; the other payloads are free
  abbrev pub PayloadValid : ContextPayload → Type 0
  PayloadValid (ContextPayload.triples quads) = All (λ q. outside_default q ≡ false) quads
  PayloadValid (ContextPayload.event _ _) = Unit
  PayloadValid (ContextPayload.chunk _ _) = Unit

  abbrev pub EmbeddingValid : Option (List p.F32) → Type 0
  EmbeddingValid none = Unit
  EmbeddingValid (some v) = All (λ x. not (p.is_finite x) ≡ false) v

  -- The source is named, triples are in the default graph, floats are finite, and every item that is
  -- cited is live.
  pub record Valid (items : OrdMap Entry) (item : ContextItem) : Type 0 where
    pub sourced : is_blank item.provenance.source ≡ false
    pub payload_valid : PayloadValid item.payload
    pub embedding_valid : EmbeddingValid item.embedding
    pub derived_live : All (λ id. is_some (OrdMap.get id items) ≡ true) item.provenance.derived_from

module _ ⦃p : Platform⦄ {E : Type 0} where
  check_source_iff : (b : Bool) → (check_source {E = E} b ≡ ok tt) ↔ (b ≡ false)
  unfolding check_source
  check_source_iff true = (λ h. absurd (cc h), λ h. absurd (cc h))
  check_source_iff false = (λ h. refl, λ h. refl)

  check_payload_iff : (x : ContextPayload) → (check_payload {E = E} x ≡ ok tt) ↔ PayloadValid x
  unfolding check_payload
  check_payload_iff (ContextPayload.triples quads) =
      let (f, g) = any-false_iff outside_default quads in
      elim (Bool-cases (any outside_default quads)) [
        | inl t ↦ (λ h. absurd (cc (rw t at h)), λ h. absurd (cc (t, g h)))
        | inr t ↦ (λ h. f t, λ h. rw t refl)
      ]
  check_payload_iff (ContextPayload.event _ _) = (λ h. tt, λ h. refl)
  check_payload_iff (ContextPayload.chunk _ _) = (λ h. tt, λ h. refl)

  check_embedding_iff :
      (o : Option (List p.F32)) → (check_embedding {E = E} o ≡ ok tt) ↔ EmbeddingValid o
  unfolding check_embedding
  check_embedding_iff none = (λ h. tt, λ h. refl)
  check_embedding_iff (some v) =
      let (f, g) = any-false_iff (λ x. not (p.is_finite x)) v in
      elim (Bool-cases (any (λ x. not (p.is_finite x)) v)) [
        | inl t ↦ (λ h. absurd (cc (rw t at h)), λ h. absurd (cc (t, g h)))
        | inr t ↦ (λ h. f t, λ h. rw t refl)
      ]

  check_derived_iff :
      (items : OrdMap Entry) (ids : List ItemId)
      → (check_derived {E = E} items ids ≡ ok tt)
        ↔ All (λ id. is_some (OrdMap.get id items) ≡ true) ids
  unfolding check_derived
  check_derived_iff items ids =
      let (f, g) = first_unknown_iff items ids in
      elim (Option-cases (first_unknown items ids)) [
        | inl t ↦ (λ h. f t, λ h. rw (check_derived, t) refl)
        | inr (id, t) ↦ (λ h. absurd (cc (rw (check_derived, t) at h)), λ h. absurd (cc (t, g h)))
      ]

  -- `validate` accepts exactly the valid items.
  pub validate_iff :
      (items : OrdMap Entry) (item : ContextItem)
      → (validate {E = E} items item ≡ ok tt) ↔ Valid items item
  unfolding validate
  validate_iff items item = (λ h. accepted h, λ h. accepts h)
    where
      accepted : validate {E = E} items item ≡ ok tt → Valid items item
      accepted h =
          let (_, r1, h1) = >>=-ok (check_source {E = E} (is_blank item.provenance.source)) _ h in
          let (_, r2, h2) = >>=-ok (check_payload {E = E} item.payload) _ h1 in
          let (_, r3, r4) = >>=-ok (check_embedding {E = E} item.embedding) _ h2 in
          record {
            sourced = (check_source_iff (is_blank item.provenance.source)).0 r1;
            payload_valid = (check_payload_iff item.payload).0 r2;
            embedding_valid = (check_embedding_iff item.embedding).0 r3;
            derived_live = (check_derived_iff items item.provenance.derived_from).0 r4;
          }

      accepts : Valid items item → validate {E = E} items item ≡ ok tt
      accepts h = rw ((check_source_iff (is_blank item.provenance.source)).1 h.sourced) (
          rw ((check_payload_iff item.payload).1 h.payload_valid) (
            rw ((check_embedding_iff item.embedding).1 h.embedding_valid)
              ((check_derived_iff items item.provenance.derived_from).1 h.derived_live)))

  -- The loop accepts a batch exactly if every item of it is valid before the batch.
  pub validate_all_iff :
      (items : OrdMap Entry) (batch : List ContextItem)
      → (validate_all {E = E} items batch ≡ ok tt) ↔ All (Valid items) batch
  unfolding validate_all
  validate_all_iff items [] = (λ h. tt, λ h. refl)
  validate_all_iff items (item ∷ rest) =
      let (f, g) = validate_iff items item in
      let (f', g') = validate_all_iff items rest in
      (
        λ h. let (_, r, h') = >>=-ok (validate {E = E} items item) _ h in (f r, f' h'),
        λ h. rw (g h.0) (g' h.1),
      )

module _ ⦃p : Platform⦄ ⦃st : Storage⦄ where
  -- Either every item of a batch is valid, or the call fails and changes nothing.
  pub add_batch-Valid :
      (scope : ContextScope) (batch : List ContextItem) (s : Session)
      → All (Valid s.state.items) batch
        ⊎ ((e : SessionError st.Error) × (add_batch scope batch s ≡ (err (Failure.error e), s)))
  unfolding add_batch ◌>>=◌
  add_batch-Valid scope batch s =
      elim (Result-cases (validate_all {E = st.Error} s.state.items batch)) [
        | inl (u, r) ↦ inl ((validate_all_iff {E = st.Error} s.state.items batch).0 r)
        | inr (e, r) ↦ inr (e, rw (r, ◌>>=◌) refl)
      ]
