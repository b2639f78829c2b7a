-- ===== src/Client/Settling.antt =====
-- src/client/btpsClient.ts: what becomes of the calls that wait when a connection is lost.
use btps_sdk.Prelude.{
  suc, ◌≡◌, ◌⊎◌, inl, inr, refl, ap, ◌∙◌, String, true, false, ◌||◌, List, [], ◌∷◌, map, length,
  length-append, All, is_some, ltb, arith,
}
use btps_sdk.Client.{
  Options, Client, Call, Network, RetryInfo, nothing, with_message, has_calls, max_retries_of,
  get_retry_info, retry_connect, resolve_error, fail_or_retry, on_error, on_end,
}
use btps_sdk.Client.Connection.{
  timed_out, failed, peer_ended, handle, on_socket_end, on_socket_error, on_timeout, is_set,
  destroy_socket,
}
use btps_sdk.Client.Steps.{if_cases}
use btps_sdk.Crypto.{Platform}
use btps_sdk.Errors.{BtpError, plain, Thrown, transform_to_exception}
use btps_sdk.Json.{Json}

-- Its promise is resolved, or its message has come.
abbrev pub IsAnswered : Call → Type 0
IsAnswered call = (is_some call.result ≡ true) ⊎ (call.message_received ≡ true)

-- One more attempt is set, or no call waits any more.
abbrev pub RetriesOrSettles : Client → Client → Type 0
RetriesOrSettles c d = (length d.timers ≡ suc (length c.timers)) ⊎ All IsAnswered d.calls

on_error-IsAnswered_call :
    (stringify : Json → String) (info : RetryInfo) (e : BtpError) (call : Call)
    → info.will_retry ≡ false
    → IsAnswered (on_error stringify info e call)
unfolding on_error
on_error-IsAnswered_call stringify info e call h =
    if_cases IsAnswered (call.message_received || info.will_retry) _ _ (λ quiet. inr (ground arith))
      (λ _. inl refl)

on_end-IsAnswered_call :
    (info : RetryInfo) (call : Call) → info.will_retry ≡ false → IsAnswered (on_end info call)
unfolding on_end
on_end-IsAnswered_call info call h =
    if_cases IsAnswered (call.message_received || info.will_retry) _ _ (λ quiet. inr (ground arith))
      (λ _. inl refl)

on_error-IsAnswered :
    (stringify : Json → String) (info : RetryInfo) (e : BtpError) (calls : List Call)
    → info.will_retry ≡ false
    → All IsAnswered (map (on_error stringify info e) calls)
on_error-IsAnswered stringify info e [] h = tt
on_error-IsAnswered stringify info e (call ∷ calls) h =
    (on_error-IsAnswered_call stringify info e call h, on_error-IsAnswered stringify info e calls h)

on_end-IsAnswered :
    (info : RetryInfo) (calls : List Call)
    → info.will_retry ≡ false
    → All IsAnswered (map (on_end info) calls)
on_end-IsAnswered info [] h = tt
on_end-IsAnswered info (call ∷ calls) h =
    (on_end-IsAnswered_call info call h, on_end-IsAnswered info calls h)

nobody-IsAnswered : (calls : List Call) → has_calls calls ≡ false → All IsAnswered calls
nobody-IsAnswered [] h = tt
nobody-IsAnswered (call ∷ calls) h = absurd (cc h)

module _ (p : Platform) (net : Network) (o : Options) where
  retry_connect-length :
      (r : String) (c : Client)
      → ltb c.retries (max_retries_of o) ≡ true
      → length (retry_connect o r c).timers ≡ suc (length c.timers)
  unfolding retry_connect
  retry_connect-length r c h = ground (arith, length-append c.timers (r ∷ []))

  resolve_error-will_retry :
      (e : BtpError) (c : Client)
      → (resolve_error p.stringify o e c).1.will_retry ≡ true
      → (ltb (resolve_error p.stringify o e c).0.retries (max_retries_of o) ≡ true)
        × ((resolve_error p.stringify o e c).0.timers ≡ c.timers)
  unfolding resolve_error get_retry_info
  resolve_error-will_retry e c h = ground arith

  resolve_error-IsAnswered :
      (e : BtpError) (c : Client)
      → (resolve_error p.stringify o e c).1.will_retry ≡ false
      → All IsAnswered (resolve_error p.stringify o e c).0.calls
  unfolding resolve_error
  resolve_error-IsAnswered e c =
      if_cases (λ (r : Client × RetryInfo). r.1.will_retry ≡ false → All IsAnswered r.0.calls)
        (has_calls c.calls) _ _
        (λ _ h.
          on_error-IsAnswered p.stringify (get_retry_info o (with_message e.message) c) e c.calls h)
        (λ nobody _. nobody-IsAnswered c.calls nobody)

  fail_or_retry-RetriesOrSettles :
      (r : String) (e : BtpError) (c : Client)
      → RetriesOrSettles c (fail_or_retry p.stringify o r e c)
  unfolding fail_or_retry
  fail_or_retry-RetriesOrSettles r e c =
      if_cases (RetriesOrSettles c) (resolve_error p.stringify o e c).1.will_retry _ _
        (λ again.
          let (left, same) = resolve_error-will_retry e c again in
          inl (retry_connect-length r _ left ∙ ap (λ ts. suc (length ts)) same))
        (λ done. inr (resolve_error-IsAnswered e c done))

  on_socket_end-RetriesOrSettles :
      (r : String) (c : Client) → RetriesOrSettles c (on_socket_end p net o r c)
  unfolding on_socket_end get_retry_info
  on_socket_end-RetriesOrSettles r c =
      if_cases (RetriesOrSettles c) (get_retry_info o nothing c).will_retry _ _
        (λ again. inl (retry_connect-length r _ (ground arith)))
        (λ done. inr (on_end-IsAnswered (get_retry_info o nothing c) c.calls done))

  -- For a client with a connection timeout: when the peer ends its connection, when its socket fails,
  -- and when it times out, either one more attempt is scheduled, or every call whose listeners the
  -- client has is settled or has received its message, so that no call is left to wait for nothing.
  pub handle-RetriesOrSettles :
      (r : String) (e : Thrown) (c : Client)
      → is_set o.connection_timeout_ms ≡ true
      → RetriesOrSettles c (handle p net o (peer_ended r) c)
        × RetriesOrSettles c (handle p net o (failed r e) c)
        × RetriesOrSettles c (handle p net o (timed_out r) c)
  unfolding handle on_socket_error on_timeout
  handle-RetriesOrSettles r e c set = (
    on_socket_end-RetriesOrSettles r c,
    fail_or_retry-RetriesOrSettles r (transform_to_exception e).error c,
    if_cases (RetriesOrSettles c) (is_set o.connection_timeout_ms)
        (fail_or_retry p.stringify o r (plain "Connection timeout")
          (record c { socket = destroy_socket c.socket }))
        c
        (λ _.
          fail_or_retry-RetriesOrSettles r (plain "Connection timeout")
            (record c { socket = destroy_socket c.socket }))
        (λ unset. absurd (cc (set, unset))),
  )
