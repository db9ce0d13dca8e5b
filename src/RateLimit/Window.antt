-- ===== src/RateLimit/Window.antt =====
-- No window holds more admitted calls of a key than the limit.
use sentry_link.Base.{
  ℕ, ◌≤◌, String, ◌==◌, text_eq, Bool, true, false, Bool-cases, inl, inr, none, some, List, [], ◌∷◌,
  ◌++◌, filter, length, length-append, length-filter-le, leb, All, if◌then◌else◌, ◌≡◌, ◌≢◌, refl,
  sym, ap, subst, ◌∙◌, arith,
}
use sentry_link.Base.Dict.{Dict, lookup_or, insert, lookup-insert_self, lookup-insert_ne}
use sentry_link.Floats.{Floats}
use sentry_link.RateLimit.{TokenBucket, within, allow}

module _ {A : Type 0} where
  filter-filter :
      (p q : A → Bool) (xs : List A)
      → ((x : A) → q x ≡ true → p x ≡ true)
      → filter q (filter p xs) ≡ filter q xs
  filter-filter p q [] h = refl
  filter-filter p q (x ∷ xs) h = elim (Bool-cases (q x)) [
    | inl t ↦ ground (arith, h x t, t, filter-filter p q xs h)
    | inr t ↦ ground (arith, t, filter-filter p q xs h)
  ]

  filter-append : (q : A → Bool) (xs ys : List A) → filter q (xs ++ ys) ≡ filter q xs ++ filter q ys
  filter-append q [] ys = refl
  filter-append q (x ∷ xs) ys = elim (Bool-cases (q x)) [
    | inl t ↦ rw t (ap (◌∷◌ x) (filter-append q xs ys))
    | inr t ↦ rw t (filter-append q xs ys)
  ]

  append_assoc : (xs ys zs : List A) → (xs ++ ys) ++ zs ≡ xs ++ (ys ++ zs)
  append_assoc [] ys zs = refl
  append_assoc (x ∷ xs) ys zs = ap (◌∷◌ x) (append_assoc xs ys zs)

  append_nil : (xs : List A) → xs ++ [] ≡ xs
  append_nil [] = refl
  append_nil (x ∷ xs) = ap (◌∷◌ x) (append_nil xs)

module _ (fl : Floats) where
  -- The times of a key's admitted calls in a run of calls.
  unfoldable pub admitted_times : String → TokenBucket fl → List (String × fl.Float) → List fl.Float
  unfolding allow
  admitted_times k b [] = []
  admitted_times k b ((key, now) ∷ calls) =
      let (allowed, after) = allow fl b key now in
      let rest = admitted_times k after calls in
      if allowed then (if key == k then now ∷ rest else rest) else rest

  module _ (window : fl.Float) (limit : ℕ) (k : String) (end : fl.Float)
      (forward : (now t : fl.Float)
        → fl.le now end ≡ true
        → within fl window end t ≡ true
        → within fl window now t ≡ true) where
    abbrev pub bucket : Dict String (List fl.Float) → TokenBucket fl
    bucket hits = record { limit = limit; window = window; hits = hits }

    abbrev last_window : List fl.Float → List fl.Float
    last_window = filter (within fl window end)

    -- The stored hits of the key are those of its admitted calls, as far as the last window sees.
    record IsFaithful (hits : Dict String (List fl.Float)) (done : List fl.Float) : Type 0 where
      same : last_window (lookup_or k [] hits) ≡ last_window done
      few : length (lookup_or k [] hits) ≤ limit

    lookup_or_self :
        (v : List fl.Float) (hits : Dict String (List fl.Float))
        → lookup_or k [] (insert k v hits) ≡ v
    lookup_or_self v hits =
        ap (λ o. elim o [ none ↦ [] | some w ↦ w ]) (lookup-insert_self k v hits)

    lookup_or_ne :
        (j : String) (v : List fl.Float) (hits : Dict String (List fl.Float))
        → k ≢ j
        → lookup_or k [] (insert j v hits) ≡ lookup_or k [] hits
    lookup_or_ne j v hits h =
        ap (λ o. elim o [ none ↦ [] | some w ↦ w ]) (lookup-insert_ne j k v hits h)

    -- The hits that a call at a time keeps.
    abbrev recent : String → fl.Float → Dict String (List fl.Float) → List fl.Float
    recent key now hits = filter (within fl window now) (lookup_or key [] hits)

    recent-same :
        (now : fl.Float) (hits : Dict String (List fl.Float)) (done : List fl.Float)
        → fl.le now end ≡ true
        → IsFaithful hits done
        → last_window (recent k now hits) ≡ last_window done
    recent-same now hits done early h =
        filter-filter (within fl window now) (within fl window end) (lookup_or k [] hits)
          (λ t. forward now t early)
        ∙ h.same

    IsFaithful-kept :
        (now : fl.Float) (hits : Dict String (List fl.Float)) (done : List fl.Float)
        → fl.le now end ≡ true
        → IsFaithful hits done
        → IsFaithful (insert k (recent k now hits) hits) done
    IsFaithful-kept now hits done early h =
        let own = lookup_or_self (recent k now hits) hits in
        record {
          same = ap last_window own ∙ recent-same now hits done early h;
          few = omega (
            arith,
            ap length own,
            length-filter-le (within fl window now) (lookup_or k [] hits),
            h.few,
          );
        }

    IsFaithful-added :
        (now : fl.Float) (hits : Dict String (List fl.Float)) (done : List fl.Float)
        → fl.le now end ≡ true
        → leb limit (length (recent k now hits)) ≡ false
        → IsFaithful hits done
        → IsFaithful (insert k (recent k now hits ++ now ∷ []) hits) (done ++ now ∷ [])
    IsFaithful-added now hits done early room h =
        let own = lookup_or_self (recent k now hits ++ now ∷ []) hits in
        record {
          same =
              ap last_window own
              ∙ filter-append (within fl window end) (recent k now hits) (now ∷ [])
              ∙ ap (λ xs. xs ++ last_window (now ∷ [])) (recent-same now hits done early h)
              ∙ sym (filter-append (within fl window end) done (now ∷ []));
          few = ground (arith, room, ap length own, length-append (recent k now hits) (now ∷ []));
        }

    IsFaithful-other :
        (key : String) (v : List fl.Float) (hits : Dict String (List fl.Float))
        (done : List fl.Float)
        → k ≢ key
        → IsFaithful hits done
        → IsFaithful (insert key v hits) done
    IsFaithful-other key v hits done apart h =
        let other = lookup_or_ne key v hits apart in
        record { same = ap last_window other ∙ h.same; few = omega (arith, ap length other, h.few) }

    -- The hits after a call that is refused, and after one that is admitted.
    abbrev refused : String → fl.Float → Dict String (List fl.Float) → Dict String (List fl.Float)
    refused key now hits = insert key (recent key now hits) hits

    abbrev taken : String → fl.Float → Dict String (List fl.Float) → Dict String (List fl.Float)
    taken key now hits = insert key (recent key now hits ++ now ∷ []) hits

    IsFaithful-refused :
        (key : String) (now : fl.Float) (hits : Dict String (List fl.Float)) (done : List fl.Float)
        → fl.le now end ≡ true
        → IsFaithful hits done
        → IsFaithful (refused key now hits) done
    IsFaithful-refused key now hits done early h = elim (Bool-cases (key == k)) [
      | inl own ↦
          subst (λ j. IsFaithful (refused j now hits) done) (sym ((text_eq.beq_iff key k).0 own))
            (IsFaithful-kept now hits done early h)
      | inr other ↦
          IsFaithful-other key (recent key now hits) hits done
            (λ p. ground (arith, other, text_eq.beq_iff key k, sym p)) h
    ]

    admitted-full :
        (key : String) (now : fl.Float) (calls : List (String × fl.Float))
        (hits : Dict String (List fl.Float))
        → leb limit (length (recent key now hits)) ≡ true
        → admitted_times k (bucket hits) ((key, now) ∷ calls)
          ≡ admitted_times k (bucket (refused key now hits)) calls
    unfolding admitted_times allow
    admitted-full key now calls hits full = rw (full) refl

    admitted-room :
        (key : String) (now : fl.Float) (calls : List (String × fl.Float))
        (hits : Dict String (List fl.Float))
        → leb limit (length (recent key now hits)) ≡ false
        → (let rest = admitted_times k (bucket (taken key now hits)) calls in
            admitted_times k (bucket hits) ((key, now) ∷ calls)
            ≡ (if key == k then now ∷ rest else rest))
    unfolding admitted_times allow
    admitted-room key now calls hits room = rw (room) refl

    stays_few :
        (calls : List (String × fl.Float)) (hits : Dict String (List fl.Float))
        (done : List fl.Float)
        → All (λ c. fl.le c.1 end ≡ true) calls
        → IsFaithful hits done
        → length (last_window (done ++ admitted_times k (bucket hits) calls)) ≤ limit
    stays_few [] hits done early h =
        unfold admitted_times in
        omega (
          arith,
          ap (λ xs. length (last_window xs)) (append_nil done),
          ap length h.same,
          length-filter-le (within fl window end) (lookup_or k [] hits),
          h.few,
        )
    stays_few ((key, now) ∷ calls) hits done early h =
        elim (Bool-cases (leb limit (length (recent key now hits)))) [
          | inl full ↦ rw (admitted-full key now calls hits full) (
              stays_few calls (refused key now hits) done early.1
                (IsFaithful-refused key now hits done early.0 h))
          | inr room ↦ elim (Bool-cases (key == k)) [
            | inl own ↦
                let p : key ≡ k = (text_eq.beq_iff key k).0 own in
                let room' = subst (λ j. leb limit (length (recent j now hits)) ≡ false) p room in
                let faithful =
                  subst (λ j. IsFaithful (taken j now hits) (done ++ now ∷ [])) (sym p)
                    (IsFaithful-added now hits done early.0 room' h) in
                rw (admitted-room key now calls hits room, own)
                  (subst (λ xs. length (last_window xs) ≤ limit)
                    (append_assoc done (now ∷ [])
                      (admitted_times k (bucket (taken key now hits)) calls))
                    (stays_few calls (taken key now hits) (done ++ now ∷ []) early.1 faithful))
            | inr other ↦
                rw (admitted-room key now calls hits room, other)
                  (stays_few calls (taken key now hits) done early.1 (
                    IsFaithful-other key (recent key now hits ++ now ∷ []) hits done
                      (λ p. ground (arith, other, text_eq.beq_iff key k, sym p)) h))
          ]
        ]

    -- Of any calls to a new limiter, in any order and for any keys, no more than the limit are
    -- admitted for a key in the window that ends at a time, if that is no earlier than any of the
    -- calls and a hit that the window sees is seen at each of these times too.
    pub allow-within_limit :
        (calls : List (String × fl.Float))
        → All (λ c. fl.le c.1 end ≡ true) calls
        → length (filter (within fl window end) (admitted_times k (bucket []) calls)) ≤ limit
    allow-within_limit calls early =
        stays_few calls [] [] early (record { same = refl; few = omega arith })
