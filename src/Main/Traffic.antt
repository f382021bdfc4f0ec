-- ===== src/Main/Traffic.antt =====
-- What the daemon publishes: one response for each message that is not for the rtu mode, under the
-- message's mode, with the number of the message's transaction.
use mathlib.Core.List.{append-nil, append_assoc}
use modbusd.Prelude.{
  ◌≡◌, refl, sym, ap, ◌∙◌, ◌⊎◌, inl, inr, Option, none, some, List, [], ◌∷◌, ◌++◌, true, false,
  CString, c_str, str_eq, Bool-cases, Option-cases,
}
use modbusd.Prelude.Int.{ℤ}
use modbusd.Env.{Env, Parse, parsed, syntax_error, overrun}
use modbusd.Env.Laws.{HashLaws, JsonLaws}
use modbusd.Daemon.{Daemon, ◌>>=◌}
use modbusd.Daemon.Exec.{Returned, Returned-mono, Returned-bind}
use modbusd.Json.{parse_block}
use modbusd.Json.Fields.{HasInt, json_get_int-HasInt, json_get_int-missing}
use modbusd.Response.Readback.{Answers}
use modbusd.Api.{Modbusd}
use modbusd.Api.Contract.{KeepsRegistry, Replies}
use modbusd.Api.Implementation.{modbusd_c, modbusd_c-KeepsRegistry, modbusd_c-Replies}
use modbusd.Main.{handle_request, handle_json, handle_message, serve}
use modbusd.Main.Part.{Publishes, Part, handle_request-Part}

pub Parse-cases :
    {J : Type 0} (r : Parse J) → ((j : J) × (r ≡ parsed j)) ⊎ ((r ≡ syntax_error) ⊎ (r ≡ overrun))
Parse-cases (parsed j) = inl (j, refl)
Parse-cases syntax_error = inr (inl refl)
Parse-cases overrun = inr (inr refl)

module _ (E : Env) where
  -- The JSON text is that of a request with this number.
  abbrev pub IsRequest : CString → ℤ → Type 0
  IsRequest text tid =
      (req : E.Json) × (E.cjson_parse (text ++ 0 ∷ []) ≡ parsed req)
      × HasInt E (some req) (c_str "tid") tid

  -- The responses to a sequence of messages: in their order, none to an empty receive or to a message
  -- for the mode rtu, and one to every other message.
  pub data Traffic : List (Option (List CString)) → List (CString × CString) → Type 0 where
    done : Traffic [] []
    nothing :
        {rest : List (Option (List CString))} {out : List (CString × CString)}
        → Traffic rest out
        → Traffic (none ∷ rest) out
    silent :
        {rest : List (Option (List CString))} {out : List (CString × CString)} (mode text : CString)
        (more : List CString)
        → str_eq mode (c_str "rtu") ≡ true
        → Traffic rest out
        → Traffic (some (mode ∷ text ∷ more) ∷ rest) out
    answered :
        {rest : List (Option (List CString))} {out : List (CString × CString)}
        (mode text reply : CString) (more : List CString) (tid : ℤ)
        → str_eq mode (c_str "rtu") ≡ false
        → IsRequest text tid
        → Answers E tid reply
        → Traffic rest out
        → Traffic (some (mode ∷ text ∷ more) ∷ rest) ((mode, reply) ∷ out)

module _ {E : Env} (api : Modbusd E) (keeps : KeepsRegistry api) (laws : Replies api)
    (json : JsonLaws E) where
  handle_json-Part :
      (mode : CString) (req : E.Json) (s : Daemon E)
      → Returned
          (λ _ t. (tid : ℤ) × HasInt E (some req) (c_str "tid") tid × Part mode tid s t)
          (handle_json api true mode (some req) s)
  unfolding handle_json ◌>>=◌
  handle_json-Part mode req s =
      elim (Option-cases (E.cjson_get_object_item (some req) (c_str "tid"))) [
        | inl e ↦ rw (json_get_int-missing E (some req) (c_str "tid") e s) tt
        | inr (j, e) ↦
            let tid = E.valueint j in
            let has : HasInt E (some req) (c_str "tid") tid = (j, e, refl) in
            rw (json_get_int-HasInt E (some req) (c_str "tid") tid has s) (
              Returned-mono (λ _ t. Part mode tid s t) _
                (handle_request api true mode tid (some req) s) (λ _ t h. (tid, has, h))
                (handle_request-Part api keeps laws tid (json.valueint-IsInt32 j) (some req) has
                  mode s))
      ]

  -- With any implementation of modbusd.h, a message has its part in the traffic.
  pub message-Part :
      (mode text : CString) (more : List CString) (s : Daemon E)
      → Returned
          (λ _ t. (tid : ℤ) × IsRequest E text tid × Part mode tid s t)
          (handle_message api true (mode ∷ text ∷ more) s)
  unfolding handle_message handle_json parse_block ◌>>=◌
  message-Part mode text more s = elim (Parse-cases (E.cjson_parse (text ++ 0 ∷ []))) [
    | inl (r, e) ↦
        rw (e, parse_block)
          (Returned-mono
            (λ _ t. (tid : ℤ) × HasInt E (some r) (c_str "tid") tid × Part mode tid s t) _
            (handle_json api true mode (some r) s) (λ _ t h. (h.0, (r, refl, h.1), h.2))
            (handle_json-Part mode r s))
    | inr (inl e) ↦
        rw (e, parse_block)
          (rw (json_get_int-missing E none (c_str "tid") (json.item-null (c_str "tid")) s) tt)
    | inr (inr e) ↦ rw (e, parse_block) tt
  ]

  -- With any implementation of modbusd.h, the loop publishes the traffic of its messages.
  pub loop-Traffic :
      (received : List (Option (List CString))) (s : Daemon E)
      → Returned
          (λ _ t.
            (out : List (CString × CString)) × (t.sent ≡ s.sent ++ out) × Traffic E received out)
          (serve api true received s)
  unfolding serve handle_message ◌>>=◌
  loop-Traffic [] s = ([], sym (append-nil s.sent), done)
  loop-Traffic (none ∷ rest) s =
      Returned-mono
        (λ _ t. (out : List (CString × CString)) × (t.sent ≡ s.sent ++ out) × Traffic E rest out) _
        (serve api true rest s) (λ _ t h. (h.0, h.1, nothing h.2)) (loop-Traffic rest s)
  loop-Traffic (some [] ∷ rest) s = tt
  loop-Traffic (some (mode ∷ []) ∷ rest) s = tt
  loop-Traffic (some (mode ∷ text ∷ more) ∷ rest) s =
      Returned-bind (λ _ t. (tid : ℤ) × IsRequest E text tid × Part mode tid s t) _
        (handle_message api true (mode ∷ text ∷ more) s) (λ _. serve api true rest)
        (message-Part mode text more s)
        (λ _ t h.
          Returned-mono
            (λ _ u.
              (out : List (CString × CString)) × (u.sent ≡ t.sent ++ out) × Traffic E rest out)
            _ (serve api true rest t) (λ _ u k. next h.0 t u h.1 h.2 k.0 k.1 k.2)
            (loop-Traffic rest t))
    where
      next :
          (tid : ℤ) (t u : Daemon E)
          → IsRequest E text tid
          → Part mode tid s t
          → (out : List (CString × CString)) → u.sent ≡ t.sent ++ out
          → Traffic E rest out
          → (all : List (CString × CString)) × (u.sent ≡ s.sent ++ all)
            × Traffic E (some (mode ∷ text ∷ more) ∷ rest) all
      next tid t u r h out e f = elim (Bool-cases (str_eq mode (c_str "rtu"))) [
        | inl g ↦
            let same : t.sent ≡ s.sent = rw g at h in
            (out, e ∙ ap (λ l. l ++ out) same, silent mode text more g f)
        | inr g ↦
            let (reply, one, answers) : Publishes mode tid s t = rw g at h in
            (
              (mode, reply) ∷ out,
              e ∙ (ap (λ l. l ++ out) one ∙ append_assoc s.sent ((mode, reply) ∷ []) out),
              answered mode text reply more tid g r answers f,
            )
      ]

module _ {E : Env} (hash : HashLaws E) (json : JsonLaws E) where
  -- Every message that gets through is a mode and the text of a request with a number. For the mode
  -- rtu it publishes nothing. For every other mode, known or not, it publishes one response, under
  -- that mode, which has the request's number and a status.
  pub handle_message-Part :
      (mode text : CString) (more : List CString) (s : Daemon E)
      → Returned
          (λ _ t. (tid : ℤ) × IsRequest E text tid × Part mode tid s t)
          (handle_message (modbusd_c E) true (mode ∷ text ∷ more) s)
  handle_message-Part =
      message-Part (modbusd_c E) (modbusd_c-KeepsRegistry hash) (modbusd_c-Replies json) json

  -- For every sequence of messages that the loop gets through, what it has published is what was
  -- published before and then the traffic of the messages: their responses in their order, one for
  -- each message but those for the mode rtu, under the message's mode and with its number.
  pub serve-Traffic :
      (received : List (Option (List CString))) (s : Daemon E)
      → Returned
          (λ _ t.
            (out : List (CString × CString)) × (t.sent ≡ s.sent ++ out) × Traffic E received out)
          (serve (modbusd_c E) true received s)
  serve-Traffic =
      loop-Traffic (modbusd_c E) (modbusd_c-KeepsRegistry hash) (modbusd_c-Replies json) json
