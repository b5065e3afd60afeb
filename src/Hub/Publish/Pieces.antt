-- ===== src/Hub/Publish/Pieces.antt =====
-- The pieces of a published message, and the counters behind it.
use sensaurus.Prelude.{
  ℕ, zero, suc, ◌+◌, ◌<◌, ◌≤◌, ◌≡◌, refl, sym, ap, ◌∙◌, arith, Bool, true, List, [], ◌∷◌, ◌++◌,
  length, length-take, length-drop, take, drop, ◌==◌, Bool-cases, ◌⊎◌, inl, inr, Text, All,
}
use sensaurus.Hub.{Hub, set_last_error}
use sensaurus.Hub.Publish.{MqttClient, write_pieces, mqtt_send, count_publish, hub_publish}

abbrev pub join_pieces : List Text → Text
join_pieces [] = []
join_pieces (p ∷ ps) = p ++ join_pieces ps

take-drop : (n : ℕ) (xs : Text) → take n xs ++ drop n xs ≡ xs
take-drop zero xs = refl
take-drop (suc n) [] = refl
take-drop (suc n) (x ∷ xs) = ap (◌∷◌ x) (take-drop n xs)

length_zero : (xs : Text) → (length xs == 0) ≡ true → xs ≡ []
length_zero [] h = refl
length_zero (x ∷ xs) h = absurd (ground arith)

write_pieces_lem :
    (writes : ℕ → Bool) (max fuel k : ℕ) (m : Text)
    → ((j : ℕ) → writes j ≡ true)
    → 0 < max
    → length m ≤ fuel
    → ((write_pieces writes max fuel k m).0 ≡ true)
      × (join_pieces (write_pieces writes max fuel k m).1 ≡ m)
      × All (λ p. length p ≤ max) (write_pieces writes max fuel k m).1
unfolding write_pieces
write_pieces_lem writes max zero k [] good pos enough = (refl, refl, tt)
write_pieces_lem writes max zero k (x ∷ m) good pos enough = absurd (omega arith)
write_pieces_lem writes max (suc fuel) k m good pos enough =
    let (all, joined, short) =
      write_pieces_lem writes max fuel (k + 1) (drop max m) good pos
        (omega (arith, length-drop max m)) in
    elim (Bool-cases (length m == 0)) [
      | inl empty ↦ rw (write_pieces, empty) (refl, sym (length_zero m empty), tt)
      | inr more ↦
          rw (write_pieces, more, good k)
            (
              all,
              ap (◌++◌ (take max m)) joined ∙ take-drop max m,
              (omega (arith, length-take max m), short),
            )
    ]

-- While the client is connected and accepts everything, the pieces are, one after another, exactly
-- the message, and none of them is longer than the client's buffer, which is not empty; the hub
-- reports success and counts the message.
pub hub_publish_lem :
    {Float : Type 0} (s : Hub Float) (time max : ℕ) (client : MqttClient) (m : Text)
    → client.connected ≡ true
    → client.begin_publish ≡ true
    → client.end_publish ≡ true
    → ((k : ℕ) → client.writes k ≡ true)
    → 0 < max
    → let (ret, t, pieces) = hub_publish s time client max m in
      (ret ≡ 0)
      × (join_pieces pieces ≡ m)
      × All (λ p. length p ≤ max) pieces
      × (t ≡ record s { mqtt_out_count = s.mqtt_out_count + 1 })
unfolding hub_publish mqtt_send count_publish
hub_publish_lem s time max client m connected begins ends good pos =
    let (all, joined, short) =
      write_pieces_lem client.writes max (length m) 0 m good pos (omega arith) in
    rw (connected, begins, all, ends) (refl, joined, short, refl)

-- Whatever the client answers, the hub counts either a message sent, and returns 0, or an error,
-- and returns 1; never both.
pub hub_publish_counts :
    {Float : Type 0} (s : Hub Float) (time max : ℕ) (client : MqttClient) (m : Text)
    → let (ret, t, pieces) = hub_publish s time client max m in
      ((ret ≡ 0) × (t.mqtt_out_count ≡ s.mqtt_out_count + 1) × (t.err_count ≡ s.err_count))
      ⊎ ((ret ≡ 1)
          × (t.mqtt_out_count ≡ s.mqtt_out_count)
          × (t.err_count ≡ s.err_count + 1)
          × (t.err_last_error_code ≡ 4))
unfolding hub_publish count_publish set_last_error
hub_publish_counts s time max client m = elim (Bool-cases client.connected) [
  | inr gone ↦ rw gone (inr (refl, refl, refl, refl))
  | inl there ↦ rw there (elim (Bool-cases (mqtt_send client max m).0) [
    | inl good ↦ rw good (inl (refl, refl, refl))
    | inr bad ↦ rw bad (inr (refl, refl, refl, refl))
  ])
]
