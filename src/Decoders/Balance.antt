-- ===== src/Decoders/Balance.antt =====
-- The account of what `run` of agent/decoders.go starts and stops.
use flightpatch.Common.{
  ℕ, ◌+◌, ◌≤◌, Bool, List, [], ◌∷◌, ◌++◌, map, none, some, ◌≡◌, refl, ap, ◌∙◌, arith,
}
use flightpatch.Decoders.Cycle.{stop_all}
use flightpatch.Decoders.{
  Child, Forwarder, Event, decoder_started, decoder_stopped, forwarder_started, forwarder_stopped,
  Manager,
}
use flightpatch.Decoders.Tally.{
  count_key, count_key-insert, count_key-erase, count_key-lookup, count_key-absent,
  count_key-retain, starts, stops, relay_starts, relay_stops, tally, tally-append, tally-map-names,
  tally-map-keys, tally-map-zero,
}
use flightpatch.Dict.{lookup, insert, erase, retain, dropped}
use flightpatch.Text.Laws.{str_eq_iff}
use flightpatch.Text.{Str}

-- Under each key there are as many decoders as were started and not yet stopped, and at most one; and
-- so with the relays.
pub record Accounted (active : List (Str × Child)) (forwarders : List (Str × Forwarder))
    (events : List Event) (k : Str) : Type 0 where
  pub decoders : tally (starts k) events ≡ tally (stops k) events + count_key k active
  pub one_decoder : count_key k active ≤ 1
  pub relays : tally (relay_starts k) events ≡ tally (relay_stops k) events + count_key k forwarders
  pub one_relay : count_key k forwarders ≤ 1

module _ (k : Str) where
  pub start_decoder-Accounted :
      (j : Str) (c : Child) (a : List (Str × Child)) (fw : List (Str × Forwarder)) (es : List Event)
      → lookup j a ≡ none
      → Accounted a fw es k
      → Accounted (insert j c a) fw (es ++ decoder_started j ∷ []) k
  unfolding tally
  start_decoder-Accounted j c a fw es e h =
      let more = decoder_started j ∷ [] in
      let n = count_key-insert j k c a e in
      record {
        decoders =
            ground (
              arith,
              h.decoders,
              n,
              tally-append (starts k) es more,
              tally-append (stops k) es more,
            );
        one_decoder = ground (arith, h.one_decoder, n, count_key-absent j a e, str_eq_iff j k);
        relays = ground (
          arith,
          h.relays,
          tally-append (relay_starts k) es more,
          tally-append (relay_stops k) es more,
        );
        one_relay = h.one_relay;
      }

  pub stop_decoder-Accounted :
      (j : Str) (c : Child) (a : List (Str × Child)) (fw : List (Str × Forwarder)) (es : List Event)
      → lookup j a ≡ some c
      → Accounted a fw es k
      → Accounted (erase j a) fw (es ++ decoder_stopped j ∷ []) k
  unfolding tally
  stop_decoder-Accounted j c a fw es e h =
      let more = decoder_stopped j ∷ [] in
      let n = count_key-erase j k a in
      record {
        decoders = ground (
          arith,
          h.decoders,
          h.one_decoder,
          n,
          count_key-lookup j c a e,
          str_eq_iff j k,
          tally-append (starts k) es more,
          tally-append (stops k) es more,
        );
        one_decoder = ground (arith, h.one_decoder, n);
        relays = ground (
          arith,
          h.relays,
          tally-append (relay_starts k) es more,
          tally-append (relay_stops k) es more,
        );
        one_relay = h.one_relay;
      }

  pub start_relay-Accounted :
      (j : Str) (f : Forwarder) (a : List (Str × Child)) (fw : List (Str × Forwarder))
      (es : List Event)
      → lookup j fw ≡ none
      → Accounted a fw es k
      → Accounted a (insert j f fw) (es ++ forwarder_started j ∷ []) k
  unfolding tally
  start_relay-Accounted j f a fw es e h =
      let more = forwarder_started j ∷ [] in
      let n = count_key-insert j k f fw e in
      record {
        decoders =
            ground
              (arith, h.decoders, tally-append (starts k) es more, tally-append (stops k) es more);
        one_decoder = h.one_decoder;
        relays = ground (
          arith,
          h.relays,
          n,
          tally-append (relay_starts k) es more,
          tally-append (relay_stops k) es more,
        );
        one_relay = ground (arith, h.one_relay, n, count_key-absent j fw e, str_eq_iff j k);
      }

  pub drop_decoders-Accounted :
      (keep : Str → Bool) (a : List (Str × Child)) (fw : List (Str × Forwarder)) (es : List Event)
      → Accounted a fw es k
      → Accounted (retain keep a) fw (es ++ map decoder_stopped (dropped keep a)) k
  drop_decoders-Accounted keep a fw es h =
      let js = dropped keep a in
      let more = map decoder_stopped js in
      let n = count_key-retain keep k a in
      record {
        decoders = omega (
          arith,
          h.decoders,
          n,
          tally-append (starts k) es more,
          tally-append (stops k) es more,
          tally-map-zero (starts k) decoder_stopped js (λ _. refl),
          tally-map-names (stops k) decoder_stopped k js (λ _. refl),
        );
        one_decoder = omega (arith, h.one_decoder, n);
        relays = omega (
          arith,
          h.relays,
          tally-append (relay_starts k) es more,
          tally-append (relay_stops k) es more,
          tally-map-zero (relay_starts k) decoder_stopped js (λ _. refl),
          tally-map-zero (relay_stops k) decoder_stopped js (λ _. refl),
        );
        one_relay = h.one_relay;
      }

  pub drop_relays-Accounted :
      (keep : Str → Bool) (a : List (Str × Child)) (fw : List (Str × Forwarder)) (es : List Event)
      → Accounted a fw es k
      → Accounted a (retain keep fw) (es ++ map forwarder_stopped (dropped keep fw)) k
  drop_relays-Accounted keep a fw es h =
      let js = dropped keep fw in
      let more = map forwarder_stopped js in
      let n = count_key-retain keep k fw in
      record {
        decoders = omega (
          arith,
          h.decoders,
          tally-append (starts k) es more,
          tally-append (stops k) es more,
          tally-map-zero (starts k) forwarder_stopped js (λ _. refl),
          tally-map-zero (stops k) forwarder_stopped js (λ _. refl),
        );
        one_decoder = h.one_decoder;
        relays = omega (
          arith,
          h.relays,
          n,
          tally-append (relay_starts k) es more,
          tally-append (relay_stops k) es more,
          tally-map-zero (relay_starts k) forwarder_stopped js (λ _. refl),
          tally-map-names (relay_stops k) forwarder_stopped k js (λ _. refl),
        );
        one_relay = omega (arith, h.one_relay, n);
      }

  pub stop_all-Accounted :
      (m : Manager)
      → Accounted m.active m.forwarders m.events k
      → Accounted [] [] (stop_all m).events k
  unfolding stop_all count_key
  stop_all-Accounted m h =
      let gone = map (λ t. decoder_stopped t.0) m.active in
      let idle = map (λ t. forwarder_stopped t.0) m.forwarders in
      let split = λ (f : Event → ℕ).
        tally-append f m.events (gone ++ idle)
        ∙ ap (λ n. tally f m.events + n) (tally-append f gone idle) in
      record {
        decoders = omega (
          arith,
          h.decoders,
          split (starts k),
          split (stops k),
          tally-map-zero (starts k) (λ t. decoder_stopped t.0) m.active (λ _. refl),
          tally-map-zero (starts k) (λ t. forwarder_stopped t.0) m.forwarders (λ _. refl),
          tally-map-keys (stops k) decoder_stopped k m.active (λ _. refl),
          tally-map-zero (stops k) (λ t. forwarder_stopped t.0) m.forwarders (λ _. refl),
        );
        one_decoder = omega arith;
        relays = omega (
          arith,
          h.relays,
          split (relay_starts k),
          split (relay_stops k),
          tally-map-zero (relay_starts k) (λ t. decoder_stopped t.0) m.active (λ _. refl),
          tally-map-zero (relay_starts k) (λ t. forwarder_stopped t.0) m.forwarders (λ _. refl),
          tally-map-zero (relay_stops k) (λ t. decoder_stopped t.0) m.active (λ _. refl),
          tally-map-keys (relay_stops k) forwarder_stopped k m.forwarders (λ _. refl),
        );
        one_relay = omega arith;
      }
