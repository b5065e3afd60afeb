-- ===== src/Config/Upload.antt =====
-- A BLE client that uploads the certificate and the key.
use sensaurus.Prelude.{
  join, ℕ, ◌<◌, ◌≡◌, refl, ap, ◌∙◌, arith, List, [], ◌∷◌, map, length, All, codes,
}
use sensaurus.CText.{c_str}
use sensaurus.Config.{
  Config, Setup, write_wifi_network, write_wifi_password, write_owner_id, write_hub_id,
  write_mqtt_user, write_mqtt_password, write_mqtt_server, write_console_enabled, write_mqtt_port,
  write_command, write_hub_cert, write_hub_key, Characteristic, hub_cert_uuid, hub_key_uuid,
  on_write, on_writes,
}
use sensaurus.Config.Chunks.{IsHeld, add_chunk-IsHeld, add_chunks, IsPiece, uploaded}

-- A client that writes "clear" and then the pieces.
abbrev pub upload : Characteristic → List (List ℕ) → List (Characteristic × List ℕ)
upload ch pieces = (ch, codes "clear") ∷ map (λ piece. (ch, piece)) pieces

on_writes-cert :
    (stray : ℕ) (s : Setup) (pieces : List (List ℕ))
    → let s' = on_writes stray s (map (λ piece. (hub_cert_uuid, piece)) pieces) in
      (s'.config.thing_crt ≡ add_chunks 1500 s.config.thing_crt pieces)
      × (s'.config.thing_private_key ≡ s.config.thing_private_key)
unfolding on_writes on_write write_hub_cert
on_writes-cert stray s [] = (refl, refl)
on_writes-cert stray s (piece ∷ pieces) =
    on_writes-cert stray (on_write stray s hub_cert_uuid piece) pieces

on_writes-key :
    (stray : ℕ) (s : Setup) (pieces : List (List ℕ))
    → let s' = on_writes stray s (map (λ piece. (hub_key_uuid, piece)) pieces) in
      (s'.config.thing_private_key ≡ add_chunks 2000 s.config.thing_private_key pieces)
      × (s'.config.thing_crt ≡ s.config.thing_crt)
unfolding on_writes on_write write_hub_key
on_writes-key stray s [] = (refl, refl)
on_writes-key stray s (piece ∷ pieces) =
    on_writes-key stray (on_write stray s hub_key_uuid piece) pieces

-- A certificate of fewer than 1499 characters and a key of fewer than 1999 that a client uploads
-- in pieces, none of them the word "clear" and none with a NUL, behind the word "clear", are held
-- as they are, whatever was held before.
pub upload_held :
    (stray : ℕ) (s : Setup) (cert key : List (List ℕ))
    → IsHeld 1500 s.config.thing_crt
    → IsHeld 2000 s.config.thing_private_key
    → All IsPiece cert
    → All IsPiece key
    → length (join cert) < 1499
    → length (join key) < 1999
    → let s' =
        on_writes stray (on_writes stray s (upload hub_cert_uuid cert)) (upload hub_key_uuid key) in
      (c_str s'.config.thing_crt ≡ join cert) × (c_str s'.config.thing_private_key ≡ join key)
upload_held stray s cert key hc hk all_cert all_key cert_fits key_fits =
    let mid = on_writes stray s (upload hub_cert_uuid cert) in
    let (crt, key_before) = on_writes-cert stray s (codes "clear" ∷ cert) in
    let (private, crt_after) = on_writes-key stray mid (codes "clear" ∷ key) in
    (
      ap c_str (crt_after ∙ crt) ∙ uploaded 1500 s.config.thing_crt cert hc all_cert cert_fits,
      ap c_str (private ∙ ap (λ k. add_chunks 2000 k (codes "clear" ∷ key)) key_before)
          ∙ uploaded 2000 s.config.thing_private_key key hk all_key key_fits,
    )

-- The certificate and the key of a configuration are strings in arrays of their sizes.
pub record HasStrings (c : Config) : Type 0 where
  pub cert_held : IsHeld 1500 c.thing_crt
  pub key_held : IsHeld 2000 c.thing_private_key

on_write-HasStrings :
    (stray : ℕ) (s : Setup) (ch : Characteristic) (value : List ℕ)
    → HasStrings s.config
    → HasStrings (on_write stray s ch value).config
unfolding on_write write_wifi_network write_wifi_password write_owner_id write_hub_id
    write_mqtt_user write_mqtt_password write_mqtt_server write_console_enabled write_mqtt_port
    write_command write_hub_cert write_hub_key
on_write-HasStrings stray s hub_cert_uuid value h = record {
  cert_held = add_chunk-IsHeld 1500 s.config.thing_crt value h.cert_held;
  key_held = h.key_held;
}
on_write-HasStrings stray s hub_key_uuid value h = record {
  cert_held = h.cert_held;
  key_held = add_chunk-IsHeld 2000 s.config.thing_private_key value h.key_held;
}
on_write-HasStrings stray s _ value h = ground arith

-- Whatever a client writes to whatever characteristics, the certificate and the key stay strings
-- within their arrays, if they were at the start.
pub on_writes-HasStrings :
    (stray : ℕ) (s : Setup) (writes : List (Characteristic × List ℕ))
    → HasStrings s.config
    → HasStrings (on_writes stray s writes).config
unfolding on_writes
on_writes-HasStrings stray s [] h = h
on_writes-HasStrings stray s ((ch, value) ∷ writes) h =
    on_writes-HasStrings stray (on_write stray s ch value) writes
      (on_write-HasStrings stray s ch value h)
