-- ===== src/Federated/Aggregate.antt =====
-- The aggregation of a round, from the parties' keys to the opened sum.
use sentry_link.Base.{
  ℕ, String, ◌==◌, text_eq, nat_eq, pair_eq, mem, distinct, distinct-filter, filter, sorted_pair,
  Bool, true, false, not, ◌&&◌, Option, none, some, List, [], ◌∷◌, map, all, length, replicate, All,
  All-mem, All-map, ◌≡◌, refl, sym, ap, ap₂, ◌∙◌,
}
use sentry_link.Base.Dict.{Dict, lookup, keys, insert}
use sentry_link.Base.Fill.{
  tabulate, keys-tabulate, fill, fill-append, fill-empty, lookup-tabulate, lookup-fill,
}
use sentry_link.Errors.{ok}
use sentry_link.Floats.{Floats}
use sentry_link.Modular.{vadd}
use sentry_link.Modular.Vector.{IsVec, vadd-IsVec, zeros-IsVec}
use sentry_link.Crypto.Prg.{Bytes}
use sentry_link.Crypto.SecureAggregation.{
  KeyAgreement, word_mod, Contribution, SecAggServer, SecAggClient, mask_and_send, reveal_seed,
  quantize, dequantize, clip_l2, same_set,
}
use sentry_link.Crypto.SecureAggregation.Masks.{
  KeyLaws, word_group, word_sum, word_mod-pos, pair_seed, term, term-IsVec, client_of,
  mask_loop-term, pairwise_seed-seed,
}
use sentry_link.Crypto.SecureAggregation.Unmask.{Knows, Collected, finalize-Collected}
use sentry_link.Modular.Group
use sentry_link.Federated.Pairs.{all-mem, pairs, pairs-All, in_filter, separate, both}
use sentry_link.Federated.Server.{
  make_parties, register_parties, send_all, reveal_inner, reveal_all, aggregate_updates,
}

-- What an update is sent as, without its mask.
unfoldable pub prepared : (fl : Floats) → Option fl.Float → List fl.Float → List ℕ
unfolding quantize clip_l2
prepared fl clip_bound u =
    quantize fl (elim clip_bound [ none ↦ u | some bound ↦ clip_l2 fl u bound ])

module _ (ka : KeyAgreement) (laws : KeyLaws ka) (private : String → ka.PrivateKey)
    (round_id : String) (dim : ℕ) (roster : List String) where
  abbrev party : String → SecAggClient ka
  party = client_of ka private round_id dim laws roster

  abbrev public_key : String → Bytes
  public_key i = ka.public_bytes (private i)

  -- The server of the round, with what it has received so far.
  abbrev at_server :
      Dict String Bytes → Dict String Contribution → Dict (String × String) Bytes → SecAggServer
  at_server public_keys contributions seeds = record {
    round_id = round_id;
    roster = roster;
    dim = dim;
    public_keys = public_keys;
    contributions = contributions;
    revealed_seeds = seeds;
  }

  module _ (fl : Floats) where
    make_parties-tabulate :
        (ids : List String)
        → All (λ i. mem i roster ≡ true) ids
        → make_parties ka fl round_id roster dim private ids ≡ ok (tabulate party ids)
    unfolding make_parties
    make_parties-tabulate [] h = refl
    make_parties-tabulate (i ∷ ids) h = rw (h.0, make_parties-tabulate ids h.1) refl

    register_parties-fill :
        (ids : List String) (d : Dict String Bytes)
        → All (λ i. mem i roster ≡ true) ids
        → register_parties ka fl (at_server d [] []) (tabulate party ids)
          ≡ ok (at_server (fill public_key ids d) [] [])
    unfolding register_parties
    register_parties-fill [] d h = refl
    register_parties-fill (i ∷ ids) d h =
        rw (h.0, laws.own_public (private i))
          (register_parties-fill ids (insert i (public_key i) d) h.1)

    abbrev all_keys : Dict String Bytes
    all_keys = tabulate public_key roster

    same_keys : same_set ka (keys all_keys) roster ≡ true
    same_keys =
        ap (λ ks. same_set ka ks roster) (keys-tabulate public_key roster)
        ∙ ap₂ ◌&&◌ (all-mem roster roster (All-mem roster)) (all-mem roster roster (All-mem roster))

    known_keys : All (λ j. lookup j all_keys ≡ some (public_key j)) roster
    known_keys = All-map (λ j h. lookup-tabulate public_key j roster h) roster (All-mem roster)

    abbrev terms : String → String → List ℕ
    terms = term ka private round_id dim

    module _ (clip_bound : Option fl.Float) (u : String → List fl.Float)
        (finite : (i : String) → all fl.is_finite (u i) ≡ true)
        (fits : (i : String) → IsVec word_mod dim (prepared fl clip_bound (u i))) where
      abbrev pub value : String → List ℕ
      value i = prepared fl clip_bound (u i)

      abbrev sent : String → Contribution
      sent i = record {
        org_id = i;
        masked_update = vadd word_mod (value i) (word_sum dim (terms i) roster);
        public_key = public_key i;
      }

      masks-IsVec : (i : String) → IsVec word_mod dim (word_sum dim (terms i) roster)
      masks-IsVec i =
          Group.sum-vec (word_group dim) (terms i) (term-IsVec ka private round_id dim i) roster

      sent-IsVec : (i : String) → IsVec word_mod dim (sent i).masked_update
      sent-IsVec i = vadd-IsVec word_mod word_mod-pos dim (value i) _ (fits i) (masks-IsVec i)

      size_test : (i : String) → (length (value i) == dim) ≡ true
      size_test i = (nat_eq.beq_iff (length (value i)) dim).1 (fits i).size

      open word_group dim use {zero_left}

      mask_and_send-sent :
          (i : String) → mask_and_send ka fl (party i) (u i) all_keys clip_bound ≡ ok (sent i)
      unfolding mask_and_send prepared
      mask_and_send-sent i =
          rw (same_keys, finite i, size_test i)
            (rw
              (mask_loop-term ka private round_id dim laws roster all_keys i roster
                (replicate dim 0) known_keys (zeros-IsVec word_mod word_mod-pos dim))
              (ap
                (λ m. ok (record {
                  org_id = i;
                  masked_update = vadd word_mod (value i) m;
                  public_key = public_key i;
                }))
                (zero_left (word_sum dim (terms i) roster) (masks-IsVec i))))

      sent_size : (i : String) → (length (sent i).masked_update == dim) ≡ true
      sent_size i = (nat_eq.beq_iff (length (sent i).masked_update) dim).1 (sent-IsVec i).size

      send_all-fill :
          (ids : List String) (d : Dict String Contribution)
          → All (λ i. mem i roster ≡ true) ids
          → send_all ka fl
              (tabulate party roster)
              clip_bound
              (tabulate u ids)
              (at_server all_keys d [])
            ≡ ok (at_server all_keys (fill sent ids d) [])
      unfolding send_all
      send_all-fill [] d h = refl
      send_all-fill (i ∷ ids) d h =
          rw (lookup-tabulate party i roster h.0, mask_and_send-sent i)
            (rw (h.0, sent_size i) (send_all-fill ids (insert i (sent i) d) h.1))

      abbrev pair_of : String → String → Bytes
      pair_of i j = pair_seed ka private round_id dim (sorted_pair i j)

      reveal_inner-fill :
          (i : String) (ds : List String) (cs : Dict String Contribution)
          (seeds : Dict (String × String) Bytes)
          → mem i roster ≡ true
          → All (λ d. (mem d roster ≡ true) × ((d == i) ≡ false)) ds
          → reveal_inner ka fl (party i) i ds (at_server all_keys cs seeds)
            ≡ ok (
                at_server all_keys cs
                  (fill (pair_seed ka private round_id dim) (map (sorted_pair i) ds) seeds))
      unfolding reveal_inner reveal_seed
      reveal_inner-fill i [] cs seeds hi h = refl
      reveal_inner-fill i (d ∷ ds) cs seeds hi h =
          rw (lookup-tabulate public_key d roster h.0.0, h.0.0, h.0.1)
            (rw (pairwise_seed-seed ka private round_id dim laws i d) (
              rw hi
                (reveal_inner-fill i ds cs (insert (sorted_pair i d) (pair_of i d) seeds) hi h.1)))

      reveal_all-fill :
          (ids ds : List String) (cs : Dict String Contribution)
          (seeds : Dict (String × String) Bytes)
          → All (λ i. mem i roster ≡ true) ids
          → All (λ i. All (λ d. (mem d roster ≡ true) × ((d == i) ≡ false)) ds) ids
          → reveal_all ka fl (tabulate party roster) ids ds (at_server all_keys cs seeds)
            ≡ ok (
                at_server all_keys cs
                  (fill (pair_seed ka private round_id dim) (pairs ids ds) seeds))
      unfolding reveal_all pairs
      reveal_all-fill [] ds cs seeds hi h = refl
      reveal_all-fill (i ∷ ids) ds cs seeds hi h = rw (lookup-tabulate party i roster hi.0) (
          rw (reveal_inner-fill i ds cs seeds hi.0 h.0) (
            reveal_all-fill ids ds cs
              (fill (pair_seed ka private round_id dim) (map (sorted_pair i) ds) seeds) hi.1 h.1
            ∙ ap (λ s. ok (at_server all_keys cs s))
                (sym (
                  fill-append (pair_seed ka private round_id dim) (map (sorted_pair i) ds)
                    (pairs ids ds) seeds))))

      module _ (apart : distinct roster ≡ true) (p : String → Bool) {first : String}
          {others : List String} (some_active : filter p roster ≡ first ∷ others) where
        abbrev active_ids : List String
        active_ids = filter p roster

        abbrev dropped_ids : List String
        dropped_ids = filter (λ j. not (p j)) roster

        active_in : All (λ i. (mem i roster ≡ true) × (p i ≡ true)) active_ids
        active_in = in_filter roster p roster (All-mem roster)

        active_members : All (λ i. mem i roster ≡ true) active_ids
        active_members = All-map (λ i h. h.0) active_ids active_in

        apart_pairs :
            All (λ i. All (λ d. (mem d roster ≡ true) × ((d == i) ≡ false)) dropped_ids) active_ids
        apart_pairs =
            All-map
              (λ i hi.
                All-map (λ d hd. (hd.0, separate p i d hi.1 hd.1)) dropped_ids
                  (in_filter roster (λ j. not (p j)) roster (All-mem roster)))
              active_ids active_in

        abbrev final_seeds : Dict (String × String) Bytes
        final_seeds = fill (pair_seed ka private round_id dim) (pairs active_ids dropped_ids) []

        abbrev final_server : SecAggServer
        final_server = at_server all_keys (fill sent active_ids []) final_seeds

        known_seeds :
            All (λ i. All (Knows ka private round_id dim final_seeds i) dropped_ids) active_ids
        known_seeds =
            All-map
              (λ i h. All-map (λ d x. (x.0, x.1.1)) dropped_ids (both _ _ dropped_ids h.0 h.1))
              active_ids
              (both _ _ active_ids
                (pairs-All active_ids dropped_ids
                  (λ k. lookup k final_seeds ≡ some (pair_seed ka private round_id dim k))
                  (lookup-fill (pair_seed ka private round_id dim) (pairs active_ids dropped_ids)
                    []))
                apart_pairs)

        final-Collected : Collected ka private round_id dim value p first others final_server
        final-Collected = record {
          contribution = sent;
          same_dim = refl;
          active = some_active;
          received = fill-empty sent active_ids (distinct-filter p roster apart);
          masked = λ i. refl;
          revealed = known_seeds;
        }

        keys_eq : fill public_key roster [] ≡ all_keys
        keys_eq = fill-empty public_key roster apart

        -- The updates of the active parties of a roster of distinct ids, clipped and quantized, are
        -- summed mod 2^64 and dequantized: masking, the server's sum and the recovery of the dropped
        -- parties' masks leave nothing else, whatever the keys. It takes finite updates whose quantized values are int64
        -- vectors of the round's dimension, at least one active party, and a key agreement on which
        -- both ends agree.
        pub aggregate_updates-sum :
            aggregate_updates ka fl round_id private roster dim clip_bound
              (tabulate u active_ids)
              dropped_ids
            ≡ ok (dequantize fl (word_sum dim value active_ids))
        unfolding aggregate_updates
        aggregate_updates-sum = rw (make_parties-tabulate roster (All-mem roster)) (
            rw (register_parties-fill roster [] (All-mem roster)) (
              rw keys_eq (
                rw (send_all-fill active_ids [] active_members) (
                  rw (keys-tabulate u active_ids) (
                    rw
                      (reveal_all-fill active_ids dropped_ids (fill sent active_ids []) []
                        active_members apart_pairs)
                      (finalize-Collected ka private round_id dim value p final_server fits
                        final-Collected fl))))))
