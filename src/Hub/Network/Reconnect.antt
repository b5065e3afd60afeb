-- ===== src/Hub/Network/Reconnect.antt =====
-- `mqttReconnect` ends, and what it has done then.
use sensaurus.Prelude.{
  ℕ, zero, suc, ◌+◌, ◌<◌, ◌≤◌, ◌≡◌, refl, sym, ap, ◌∙◌, length-append, arith, Bool, true, false,
  ◌&&◌, List, [], ◌∷◌, ◌++◌, Option, none, some, ltb, leb, Bool-cases, Option-cases, inl, inr, ◌⊎◌,
  Text, codes, length, drop,
}
use sensaurus.CText.{c_str, strcpy}
use sensaurus.CText.Copy.{IsText, c_str-append, c_str-IsText}
use sensaurus.Config.{Config}
use sensaurus.Hub.Network.{
  Network, topic, Answers, subscribe_topics, Outcome, reconnect_loop, mqtt_reconnect,
}

IsText-append : (s t : Text) → IsText s → IsText t → IsText (s ++ t)
IsText-append [] t h k = k
IsText-append (c ∷ s) t h k = (h.0, IsText-append s t h.1 k)

topic-IsText : (config : Config) (name : Text) → IsText name → IsText (topic config name)
topic-IsText config name h =
    IsText-append (c_str config.owner_id ++ codes "/hub/" ++ c_str config.hub_id) name
      (IsText-append (c_str config.owner_id ++ codes "/hub/") (c_str config.hub_id)
        (IsText-append (c_str config.owner_id) (codes "/hub/") (c_str-IsText config.owner_id)
          (omega arith))
        (c_str-IsText config.hub_id))
      h

strcpy-fits :
    (dst : List ℕ) (src : Text)
    → IsText src
    → length src < length dst
    → (copied : List ℕ) × (strcpy dst src ≡ some copied) × (c_str copied ≡ src)
unfolding strcpy
strcpy-fits dst src h fits =
    let room : ltb (length src) (length dst) ≡ true = ground arith in
    (src ++ 0 ∷ drop (length src + 1) dst, rw room, c_str-append src (drop (length src + 1) dst) h)

-- The topics fit their arrays, of 100 characters each.
pub record TopicsFit (config : Config) (s : Network) : Type 0 where
  pub command_size : length s.command_topic_name ≡ 100
  pub actuators_size : length s.actuators_topic_name ≡ 100
  pub command_fits : length (topic config (codes "/command")) < 100
  pub actuators_fit : length (topic config (codes "/actuators")) < 100

-- What a successful reconnection has subscribed to, and keeps the names of.
abbrev pub Subscribed : Config → Outcome → Type 0
Subscribed config o =
    (o.topics ≡ topic config (codes "/command") ∷ topic config (codes "/actuators") ∷ [])
    × (c_str o.network.command_topic_name ≡ topic config (codes "/command"))
    × (c_str o.network.actuators_topic_name ≡ topic config (codes "/actuators"))

module _ (config : Config) (a : Answers) (s : Network) (fit : TopicsFit config s) where
  abbrev Ends : Option Outcome → Type 0
  Ends r = (o : Outcome) × (r ≡ some o) × (o.tries ≤ 3) × (o.success ≡ true → Subscribed config o)

  pub subscribed_lem :
      (tries : ℕ)
      → tries ≤ 3
      → (success : Bool) × (named : Network) × (topics : List Text) × (subscribe_topics config a s
          ≡ some (success, named, topics))
        × (success ≡ a.subscribe_command && a.subscribe_actuators)
        × (success ≡ true
            → Subscribed config
                (record { success = success; network = named; topics = topics; tries = tries }))
  unfolding subscribe_topics
  subscribed_lem tries few =
      let (command, copied, command_is) =
        strcpy-fits s.command_topic_name (topic config (codes "/command"))
          (topic-IsText config (codes "/command") (omega arith))
          (omega (arith, fit.command_size, fit.command_fits)) in
      let (actuators, copied', actuators_is) =
        strcpy-fits s.actuators_topic_name (topic config (codes "/actuators"))
          (topic-IsText config (codes "/actuators") (omega arith))
          (omega (arith, fit.actuators_size, fit.actuators_fit)) in
      let named : Network = record s {
        command_topic_name = command;
        actuators_topic_name = actuators;
      } in
      elim (Bool-cases a.subscribe_command) [
        | inl yes_command ↦ (
          a.subscribe_actuators,
          named,
          c_str command ∷ c_str actuators ∷ [],
          rw (subscribe_topics, copied, copied', yes_command),
          rw yes_command refl,
          λ h. (rw (command_is, actuators_is), command_is, actuators_is),
        )
        | inr no_command ↦ (
          false,
          named,
          c_str command ∷ [],
          rw (subscribe_topics, copied, copied', no_command),
          rw no_command refl,
          λ h. cc,
        )
      ]

  stopped-Ends :
      (tries : ℕ)
      → tries ≤ 3
      → Ends (some (record { success = false; network = s; topics = []; tries = tries }))
  stopped-Ends tries few =
      (record { success = false; network = s; topics = []; tries = tries }, refl, few, λ h. cc)

  reconnect_loop-Ends :
      (fuel retries : ℕ)
      → fuel + retries ≡ 3
      → 0 < fuel
      → Ends (reconnect_loop config a s fuel retries)
  unfolding reconnect_loop
  reconnect_loop-Ends zero retries e h = elim h [ ]
  reconnect_loop-Ends (suc fuel) retries e h = elim (Bool-cases (a.connected retries)) [
    | inl connected ↦ rw (reconnect_loop, connected) (stopped-Ends retries (omega arith))
    | inr apart ↦ elim (Bool-cases (a.wifi_status retries)) [
      | inr down ↦ rw (reconnect_loop, apart, down) (stopped-Ends retries (omega arith))
      | inl up ↦ elim (Bool-cases (a.connect retries)) [
        | inl accepted ↦
            let (success, named, topics, done, told, right) =
              subscribed_lem (retries + 1) (omega arith) in
            rw (reconnect_loop, apart, up, accepted, done)
              (
                record { success = success; network = named; topics = topics; tries = retries + 1 },
                refl,
                omega arith,
                right,
              )
        | inr refused ↦ elim (Bool-cases (leb 3 (retries + 1))) [
          | inl last ↦
              rw (reconnect_loop, apart, up, refused, last)
                (stopped-Ends (retries + 1) (omega arith))
          | inr more ↦
              rw (reconnect_loop, apart, up, refused, more)
                (reconnect_loop-Ends fuel (retries + 1) (omega arith) (ground arith))
        ]
      ]
    ]
  ]

  -- Where both topics fit their arrays, a reconnection always ends, whatever the server and WiFi
  -- answer, after three connections tried at most. If it reports success, it has asked for the
  -- topics of commands and of actuators of this hub, in this order, and keeps their names.
  pub mqtt_reconnect_ends :
      (o : Outcome) × (mqtt_reconnect config a s ≡ some o)
      × (o.tries ≤ 3)
      × (o.success ≡ true → Subscribed config o)
  unfolding mqtt_reconnect
  mqtt_reconnect_ends = reconnect_loop-Ends 3 0 (omega arith) (omega arith)

strcpy-long : (dst : List ℕ) (src : Text) → length dst ≤ length src → strcpy dst src ≡ none
unfolding strcpy
strcpy-long dst src h = let full : ltb (length src) (length dst) ≡ false = ground arith in rw full

subscribe_overrun :
    (config : Config) (a : Answers) (s : Network)
    → (length s.command_topic_name ≤ length (topic config (codes "/command")))
      ⊎ (length s.actuators_topic_name ≤ length (topic config (codes "/actuators")))
    → subscribe_topics config a s ≡ none
unfolding subscribe_topics
subscribe_overrun config a s (inl long) =
    rw (subscribe_topics, strcpy-long s.command_topic_name (topic config (codes "/command")) long)
subscribe_overrun config a s (inr long) =
    elim (Option-cases (strcpy s.command_topic_name (topic config (codes "/command")))) [
      | inl none_left ↦ rw (subscribe_topics, none_left)
      | inr (command, copied) ↦ rw (
        subscribe_topics,
        copied,
        strcpy-long s.actuators_topic_name (topic config (codes "/actuators")) long,
      )
    ]

actuators_topic-long :
    (config : Config)
    → 85 ≤ length (c_str config.owner_id) + length (c_str config.hub_id)
    → 100 ≤ length (topic config (codes "/actuators"))
actuators_topic-long config long = omega (
  arith,
  length-append (c_str config.owner_id ++ codes "/hub/" ++ c_str config.hub_id)
      (codes "/actuators"),
  length-append (c_str config.owner_id ++ codes "/hub/") (c_str config.hub_id),
  length-append (c_str config.owner_id) (codes "/hub/"),
)

module _ (config : Config) (a : Answers) (s : Network)
    (overrun : subscribe_topics config a s ≡ none) where
  reconnect_loop-overrun :
      (fuel retries refused : ℕ)
      → refused < fuel
      → fuel + retries ≤ 3
      → ((j : ℕ) → j ≤ retries + refused → (a.connected j ≡ false) × (a.wifi_status j ≡ true))
      → ((j : ℕ) → j < retries + refused → a.connect j ≡ false)
      → a.connect (retries + refused) ≡ true
      → reconnect_loop config a s fuel retries ≡ none
  unfolding reconnect_loop
  reconnect_loop-overrun zero retries refused room few tried refusals accepted =
      absurd (omega arith)
  reconnect_loop-overrun (suc fuel) retries zero room few tried refusals accepted =
      let here : retries + 0 ≡ retries = omega arith in
      let (apart, up) = tried retries (omega arith) in
      let yes : a.connect retries ≡ true = ap a.connect (sym here) ∙ accepted in
      rw (reconnect_loop, apart, up, yes, overrun)
  reconnect_loop-overrun (suc fuel) retries (suc refused) room few tried refusals accepted =
      let (apart, up) = tried retries (omega arith) in
      let no : a.connect retries ≡ false = refusals retries (omega arith) in
      let more : leb 3 (retries + 1) ≡ false = ground arith in
      let there : retries + suc refused ≡ retries + 1 + refused = omega arith in
      rw (reconnect_loop, apart, up, no, more)
        (reconnect_loop-overrun fuel (retries + 1) refused (omega arith) (omega arith)
          (λ j le. tried j (omega arith)) (λ j lt. refusals j (omega arith))
          (ap a.connect (sym there) ∙ accepted))

-- IDs of the owner and of the hub with 85 characters or more together, as the configuration allows,
-- make a reconnection write beyond the array of the topic of actuators, of 100 characters, once the
-- server accepts a connection, whether the first one or after one or two refusals.
pub mqtt_reconnect_overrun :
    (config : Config) (a : Answers) (s : Network) (refused : ℕ)
    → 85 ≤ length (c_str config.owner_id) + length (c_str config.hub_id)
    → length s.actuators_topic_name ≡ 100
    → refused < 3
    → ((j : ℕ) → j ≤ refused → (a.connected j ≡ false) × (a.wifi_status j ≡ true))
    → ((j : ℕ) → j < refused → a.connect j ≡ false)
    → a.connect refused ≡ true
    → mqtt_reconnect config a s ≡ none
unfolding mqtt_reconnect
mqtt_reconnect_overrun config a s refused long size few tried refusals accepted =
    let over =
      subscribe_overrun config a s (inr (omega (arith, size, actuators_topic-long config long))) in
    reconnect_loop-overrun config a s over 3 0 refused few (omega arith)
      (λ j le. tried j (omega arith)) (λ j lt. refusals j (omega arith))
      (ap a.connect (omega arith) ∙ accepted)
