-- ===== src/Mqtt/Retry.antt =====
-- src/mqttManager/mqttManager.cpp: calls of `connect` after one that failed.
use multi_cctv_object_detect.Prelude.{
  List, [], ◌∷◌, ◌≡◌, ◌∙◌, refl, ap, Option-cases, inl, inr, none, some, Bytes,
}
use multi_cctv_object_detect.Mqtt.{
  MqttManager, Client, Attempt, no_connection, connect, connect_again,
}

-- A later call of one of the two functions, with the library's answer.
pub data Later : Type 0 where
  again : Attempt → Later
  anew : Attempt → Bytes → Bytes → Bytes → Bytes → Later

abbrev later_call : MqttManager → Later → MqttManager
later_call m (again answer) = connect_again answer m
later_call m (anew answer address client_id user_id password) =
    connect answer m address client_id user_id password

abbrev pub later_calls : MqttManager → List Later → MqttManager
later_calls m [] = m
later_calls m (c ∷ calls) = later_calls (later_call m c) calls

later_call-same :
    (m : MqttManager) (client : Client) (c : Later) → m.client_ ≡ some client → later_call m c ≡ m
unfolding connect connect_again
later_call-same m client (again answer) e = simp (e, connect_again)
later_call-same m client (anew answer address client_id user_id password) e = simp (e, connect)

later_calls-same :
    (m : MqttManager) (client : Client) (calls : List Later)
    → m.client_ ≡ some client
    → later_calls m calls ≡ m
later_calls-same m client [] e = refl
later_calls-same m client (c ∷ calls) e =
    ap (λ n. later_calls n calls) (later_call-same m client c e) ∙ later_calls-same m client calls e

connect-client :
    (m : MqttManager) (address client_id user_id password : Bytes)
    → m.client_ ≡ none
    → (client : Client) × ((connect no_connection m address client_id user_id password).client_
        ≡ some client)
unfolding connect
connect-client m address client_id user_id password e =
    elim (Option-cases (connect no_connection m address client_id user_id password).client_) [
      | inl nothing ↦ cc (rw (e, connect) at nothing)
      | inr made ↦ made
    ]

-- Once a first `connect` has made its client, but the broker did not answer, no later call of either
-- `connect` changes the manager, whatever its arguments and whether the broker would answer now.
pub connect-no_retry :
    (m : MqttManager) (address client_id user_id password : Bytes) (calls : List Later)
    → m.client_ ≡ none
    → later_calls (connect no_connection m address client_id user_id password) calls
      ≡ connect no_connection m address client_id user_id password
connect-no_retry m address client_id user_id password calls e =
    let (client, made) = connect-client m address client_id user_id password e in
    later_calls-same (connect no_connection m address client_id user_id password) client calls made
