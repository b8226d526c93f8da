-- ===== src/Http/PcAgentHandler.antt =====
-- pc_agent_handler.go.
use datn_backend.Prelude.{
  ℕ, ◌+◌, ◌-◌, ◌/◌, Bool, true, Option, none, some, List, [], ◌∷◌, leb, if◌then◌else◌,
}
use datn_backend.Prelude.Int.{pos}
use datn_backend.Text.{Text, utf8, is_empty}
use datn_backend.Domain.{Time, second}
use datn_backend.Domain.Pairing.{
  PairingSession, PairingStatus, pending, confirmed, expired, cancelled, PcAgent, AgentStatus,
  online, offline, ProtectionStatus, enabled, disabled,
}
use datn_backend.Errors.{Error, usecase, UsecaseError}
use datn_backend.World.{Env}
use datn_backend.Action.{Action, pure, now, ◌>>=◌}
use datn_backend.Pairing.Start
use datn_backend.Pairing.Status
use datn_backend.Pairing.Status.{PairingStatusResult}
use datn_backend.Pairing.Agents
use datn_backend.Http.Json.{
  Json, Fields, Items, int, boolean, obj, arr, field, end, nil, cons, optional, text_field, Codec,
}
use datn_backend.Http.Replies.{
  Reply, Handler, write_json, write_error, write_message_error, write_internal_error, decode_json,
  answer,
}
use datn_backend.Http.Middleware.{user_id_from_context, with_value}
use datn_backend.Http.AuthHandler.{invalid_input, invalid_input_error}

-- The texts of the constants of internal/domain.
abbrev pub pairing_status_text : PairingStatus → Text
pairing_status_text pending = utf8 "pending"
pairing_status_text confirmed = utf8 "confirmed"
pairing_status_text expired = utf8 "expired"
pairing_status_text cancelled = utf8 "cancelled"

abbrev pub agent_status_text : AgentStatus → Text
agent_status_text online = utf8 "online"
agent_status_text offline = utf8 "offline"

abbrev pub protection_status_text : ProtectionStatus → Text
protection_status_text enabled = utf8 "enabled"
protection_status_text disabled = utf8 "disabled"

-- The switches on the error.
abbrev pub confirm_pairing_error : Error → Reply
confirm_pairing_error (usecase UsecaseError.invalid_input) = invalid_input
confirm_pairing_error (usecase UsecaseError.pairing_session_not_found) =
    write_message_error 400 (utf8 "Mã liên kết không hợp lệ")
confirm_pairing_error (usecase UsecaseError.pairing_session_not_pending) =
    write_message_error 400 (utf8 "Mã liên kết đã được sử dụng hoặc không còn hiệu lực")
confirm_pairing_error (usecase UsecaseError.pairing_session_expired) =
    write_message_error 400 (utf8 "Mã liên kết đã hết hạn")
confirm_pairing_error e = write_internal_error

abbrev pub get_pairing_status_error : Error → Reply
get_pairing_status_error (usecase UsecaseError.invalid_input) = invalid_input
get_pairing_status_error (usecase UsecaseError.pairing_session_not_found) =
    write_message_error 400 (utf8 "Mã liên kết không hợp lệ")
get_pairing_status_error (usecase UsecaseError.pairing_session_mismatch) =
    write_message_error 400 (utf8 "Phiên liên kết không hợp lệ")
get_pairing_status_error e = write_internal_error

abbrev pub verify_error : Error → Reply
verify_error (usecase UsecaseError.agent_credential_invalid) =
    write_message_error 401 (utf8 "Thông tin xác thực thiết bị không hợp lệ")
verify_error e = write_internal_error

-- The message stands in the source as it does here.
abbrev pub own_protection_error : Error → Reply
own_protection_error (usecase UsecaseError.agent_credential_invalid) =
    write_message_error 401 (utf8 "ThĂ´ng tin xĂ¡c thá»±c thiáº¿t bá»‹ khĂ´ng há»£p lá»‡")
own_protection_error e = write_internal_error

abbrev pub agent_error : Error → Reply
agent_error (usecase UsecaseError.invalid_input) = invalid_input
agent_error (usecase UsecaseError.pc_agent_not_found) = write_error 404 (utf8 "pc_agent_not_found")
agent_error e = write_internal_error

-- Whole seconds, rounded up, and 0 for what is past.
unfoldable pub seconds_until : Time → Time → ℕ
seconds_until at t = if leb t at then 0 else (t - at + second - 1) / second

abbrev formatted : Codec → Option Time → Option Text
formatted codec none = none
formatted codec (some t) = some (codec.format_time t)

module _ (codec : Codec) where
  unfoldable pub to_pc_agent_response : PcAgent → Json
  to_pc_agent_response agent = obj (
      text_field (utf8 "id") agent.id (
        text_field (utf8 "device_name") agent.device_name (
          text_field (utf8 "os_type") agent.os_type (
            text_field (utf8 "agent_status") (agent_status_text agent.status) (
              text_field (utf8 "protection_status") (protection_status_text agent.protection_status)
                (field (utf8 "last_seen_at") (optional (formatted codec agent.last_seen_at))
                  end))))))

  unfoldable pub pc_agent_items : List PcAgent → Items
  unfolding to_pc_agent_response
  pc_agent_items [] = nil
  pc_agent_items (agent ∷ agents) = cons (to_pc_agent_response agent) (pc_agent_items agents)

-- The session that was started, with the identifier of its agent and the seconds it is valid for.
abbrev started : PairingSession × Option ℕ → Option Text → Reply
started (session, some expires_in) (some pc_agent_id) = write_json 201 (
    obj (
      text_field (utf8 "pc_agent_id") pc_agent_id (
        text_field (utf8 "pairing_session_id") session.id (
          text_field (utf8 "device_code") session.device_code
            (field (utf8 "expires_in") (int (pos expires_in)) end)))))
started (session, none) requested = write_internal_error
started (session, some expires_in) none = write_internal_error

-- session.RequestedPCAgentID == nil || *session.RequestedPCAgentID == ""
abbrev is_missing : Option Text → Bool
is_missing none = true
is_missing (some pc_agent_id) = is_empty pc_agent_id

abbrev optional_field : Text → Option Text → Fields → Fields
optional_field name none rest = rest
optional_field name (some value) rest = text_field name value rest

-- The keys of the map, in the order in which they are encoded.
unfoldable pub pairing_status_response : PairingStatusResult → Json
pairing_status_response result =
    let status = text_field (utf8 "status") (pairing_status_text result.status) end in
    let agent = optional_field (utf8 "pc_agent_id") result.pc_agent_id status in
    let issued =
      if result.credential_issued
      then field (utf8 "credential_issued") (boolean true) agent
      else agent in
    obj (
      if is_empty result.agent_secret
      then issued
      else text_field (utf8 "agent_secret") result.agent_secret issued)

abbrev pub pc_agent_id_key : Text
pc_agent_id_key = utf8 "pc_agent_id"

abbrev pub agent_secret_key : Text
agent_secret_key = utf8 "agent_secret"

abbrev pub no_content : Reply
no_content = record { status = 204; body = none; command = none }

-- go h.protectionCommands.PublishProtectionCommand(…)
abbrev pub publish_protection_command : Text → Bool → Reply → Reply
publish_protection_command pc_agent_id on reply = record reply {
  command = some (record { pc_agent_id = pc_agent_id; enabled = on });
}

module _ (env : Env) (codec : Codec) where
  -- The clock is read only where the session has an agent.
  unfoldable pub expires_in : PairingSession → Action (PairingSession × Option ℕ)
  unfolding now seconds_until
  expires_in session =
      if is_missing session.requested_pc_agent_id
      then pure (session, none)
      else (do at ← now env; pure (session, some (seconds_until at session.expires_at)))

  unfoldable pub handle_start_pairing : Handler
  unfolding decode_json Start.start_pairing expires_in
  handle_start_pairing request =
      decode_json codec (utf8 "device_name" ∷ utf8 "os_type" ∷ []) [] request λ fields.
        answer invalid_input_error (λ result. started result result.0.requested_pc_agent_id)
          (Start.start_pairing env (fields.text (utf8 "device_name")) (fields.text (utf8 "os_type"))
            >>= expires_in)

  unfoldable pub handle_confirm_pairing : Handler
  unfolding decode_json Start.confirm_pairing to_pc_agent_response user_id_from_context
  handle_confirm_pairing request =
      with_value (utf8 "missing_user_id") (user_id_from_context request) λ user_id.
        decode_json codec (utf8 "device_code" ∷ []) [] request λ fields.
          answer confirm_pairing_error
            (λ agent. write_json 201 (
              obj (
                text_field (utf8 "message") (utf8 "Liên kết thiết bị thành công")
                  (field (utf8 "agent") (to_pc_agent_response codec agent) end))))
            (Start.confirm_pairing env user_id (fields.text (utf8 "device_code")))

  unfoldable pub handle_get_pairing_status : Handler
  unfolding Status.get_pairing_status pairing_status_response
  handle_get_pairing_status request =
      answer get_pairing_status_error (λ result. write_json 200 (pairing_status_response result))
        (Status.get_pairing_status env (request.query (utf8 "pairing_session_id"))
          (request.query (utf8 "device_code")))

  unfoldable pub handle_verify : Handler
  unfolding decode_json Agents.verify_pc_agent
  handle_verify request =
      decode_json codec (pc_agent_id_key ∷ agent_secret_key ∷ []) [] request λ fields.
        answer verify_error
          (λ agent. write_json 200 (
            obj (
              text_field (utf8 "message") (utf8 "agent verified") (
                text_field pc_agent_id_key agent.id (
                  text_field (utf8 "protection_status")
                    (protection_status_text agent.protection_status) end)))))
          (Agents.verify_pc_agent env (fields.text pc_agent_id_key) (fields.text agent_secret_key))

  unfoldable pub handle_list : Handler
  unfolding Agents.list_pc_agents pc_agent_items user_id_from_context
  handle_list request =
      with_value (utf8 "missing_user_id") (user_id_from_context request) λ user_id.
        answer invalid_input_error (λ agents. write_json 200 (arr (pc_agent_items codec agents)))
          (Agents.list_pc_agents env user_id)

  unfoldable pub handle_delete : Handler
  unfolding Agents.delete_pc_agent user_id_from_context
  handle_delete request =
      with_value (utf8 "missing_user_id") (user_id_from_context request) λ user_id.
        answer agent_error (λ done. no_content)
          (Agents.delete_pc_agent env user_id (request.path_value pc_agent_id_key))

  unfoldable pub handle_update_protection : Handler
  unfolding decode_json Agents.update_pc_agent_protection to_pc_agent_response user_id_from_context
  handle_update_protection request =
      with_value (utf8 "missing_user_id") (user_id_from_context request) λ user_id.
        decode_json codec [] (utf8 "enabled" ∷ []) request λ fields.
          answer agent_error
            (λ agent.
              publish_protection_command agent.id (fields.flag (utf8 "enabled"))
                (write_json 200 (to_pc_agent_response codec agent)))
            (Agents.update_pc_agent_protection env user_id (request.path_value pc_agent_id_key)
              (fields.flag (utf8 "enabled")))

  unfoldable pub handle_update_own_protection : Handler
  unfolding decode_json Agents.update_pc_agent_own_protection to_pc_agent_response
  handle_update_own_protection request =
      decode_json codec (pc_agent_id_key ∷ agent_secret_key ∷ []) (utf8 "enabled" ∷ []) request
        λ fields.
          answer own_protection_error (λ agent. write_json 200 (to_pc_agent_response codec agent))
            (Agents.update_pc_agent_own_protection env (fields.text pc_agent_id_key)
              (fields.text agent_secret_key) (fields.flag (utf8 "enabled")))
