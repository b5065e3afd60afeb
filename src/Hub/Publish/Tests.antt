-- ===== src/Hub/Publish/Tests.antt =====
-- A message of ten characters, in pieces of four.
use sensaurus.Prelude.{◌≡◌, refl, true, false, [], ◌∷◌, ◌==◌, if◌then◌else◌, codes}
use sensaurus.Hub.Publish.{MqttClient, mqtt_send, aws_try}

abbrev good_client : MqttClient
good_client = record {
  connected = true;
  begin_publish = true;
  writes = λ k. true;
  end_publish = true;
}

abbrev failing_client : MqttClient
failing_client = record good_client { writes = λ k. false }

in_pieces :
    mqtt_send good_client 4 (codes "0123456789")
    ≡ (true, codes "0123" ∷ codes "4567" ∷ codes "89" ∷ [])
unfolding mqtt_send
in_pieces = refl

-- Two results that say that the client is not idle, then a success.
retried : aws_try 28 (λ k. if k == 2 then 0 else 28) 0 4 ≡ (0, 5 ∷ 10 ∷ [])
unfolding aws_try
retried = refl
