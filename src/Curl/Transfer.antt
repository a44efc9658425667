-- ===== src/Curl/Transfer.antt =====
-- The life of a request: libcurl hands over the response in chunks, and then reports how it ended.
use mpdscribble.Base.{
  ◌⊎◌, ◌≤◌, ◌<◌, ◌≡◌, refl, ap, ◌∙◌, sym, subst, List, [], ◌∷◌, ◌++◌, arith, Bytes, length,
  append_assoc, append-nil, ltb, ltb→lt, if◌then◌else◌, Bool-cases, inl, inr,
}
use mpdscribble.Curl.{
  max_response_body, CurlRequest, CurlCode, curle_ok, curle_write_error, curle_other, HandlerCall,
  on_http_response, on_http_error, is_ok, body_too_large, curl_failed, write_function,
  check_response, done,
}

-- The request after libcurl has called WriteFunction() with some chunks.
unfoldable pub received : List Bytes → CurlRequest → CurlRequest
unfolding write_function
received [] request = request
received (chunk ∷ chunks) request = received chunks (write_function chunk request).1

-- What libcurl documents of its calls and of the code that it reports in the end: it does not call
-- WriteFunction() without data; if that returns another number than that of the bytes, the call is the
-- last one, and the code is CURLE_WRITE_ERROR.
abbrev pub Obeys : List Bytes → CurlRequest → CurlCode → Type 0
Obeys [] request result = Unit
Obeys (chunk ∷ chunks) request result =
    (0 < length chunk)
    × (((write_function chunk request).0 ≡ length chunk)
        ⊎ ((chunks ≡ []) × (result ≡ curle_write_error)))
    × Obeys chunks (write_function chunk request).1 result

abbrev pub concat : List Bytes → Bytes
concat [] = []
concat (chunk ∷ chunks) = chunk ++ concat chunks

abbrev with_body : CurlRequest → Bytes → CurlRequest
with_body request body = record request { response_body = body }

received-concat :
    (chunks : List Bytes) (request : CurlRequest)
    → received chunks request ≡ with_body request (request.response_body ++ concat chunks)
unfolding received write_function
received-concat [] request = rw (append-nil request.response_body) refl
received-concat (chunk ∷ chunks) request =
    received-concat chunks (with_body request (request.response_body ++ chunk))
    ∙ ap (with_body request) (append_assoc request.response_body chunk (concat chunks))

-- What is too long is refused.
Obeys-large :
    (chunks : List Bytes) (request : CurlRequest) (result : CurlCode)
    → Obeys chunks request result
    → length request.response_body ≤ 8192
    → 8192 < length (request.response_body ++ concat chunks)
    → result ≡ curle_write_error
unfolding write_function
Obeys-large [] request result o h k =
    absurd (omega (arith, ap length (append-nil request.response_body)))
Obeys-large (chunk ∷ chunks) request result (p, inr (last, e), o) h k = e
Obeys-large (chunk ∷ chunks) request result (p, inl e, o) h k =
    let body = request.response_body ++ chunk in
    let same_total : request.response_body ++ (chunk ++ concat chunks) ≡ body ++ concat chunks =
      sym (append_assoc request.response_body chunk (concat chunks)) in
    let fits : length body ≤ 8192 = ground arith in
    Obeys-large chunks (with_body request body) result o fits
      (subst (λ b. 8192 < length b) same_total k)

-- Done(), for the length of the whole response
abbrev pub outcome : Bytes → Bytes → CurlCode → HandlerCall
outcome body error result =
    if ltb max_response_body (length body)
    then on_http_error body_too_large
    else if is_ok result
    then on_http_response body
    else on_http_error (curl_failed error)

done-fits :
    (result : CurlCode) (request : CurlRequest)
    → length request.response_body ≤ 8192
    → done result request ≡ (
        if is_ok result
        then on_http_response request.response_body
        else on_http_error (curl_failed request.error))
unfolding done check_response
done-fits curle_ok request h = ground arith
done-fits curle_write_error request h = ground arith
done-fits curle_other request h = ground arith

done-large :
    (result : CurlCode) (request : CurlRequest)
    → result ≡ curle_write_error
    → 8192 < length request.response_body
    → done result request ≡ on_http_error body_too_large
unfolding done check_response
done-large curle_write_error request e h = ground arith
done-large curle_ok request e h = ground arith
done-large curle_other request e h = ground arith

pub done-received :
    (chunks : List Bytes) (request : CurlRequest) (result : CurlCode)
    → request.response_body ≡ []
    → Obeys chunks request result
    → done result (received chunks request) ≡ outcome (concat chunks) request.error result
done-received chunks request result e o =
    ap (done result) (received-concat chunks request)
    ∙ elim (Bool-cases (ltb max_response_body (length (concat chunks)))) [
      | inl g ↦
          let large : 8192 < length (request.response_body ++ concat chunks) =
            subst (λ b. 8192 < length b) (sym whole) (ltb→lt max_response_body _ g) in
          rw g (
            done-large result (with_body request (request.response_body ++ concat chunks))
              (Obeys-large chunks request result o (omega (arith, ap length e)) large) large)
      | inr g ↦
          let small : length (concat chunks) ≤ 8192 = ground arith in
          let fits : length (request.response_body ++ concat chunks) ≤ 8192 =
            subst (λ b. length b ≤ 8192) (sym whole) small in
          rw g (
            done-fits result (with_body request (request.response_body ++ concat chunks)) fits
            ∙ ap
                (λ b.
                  if is_ok result
                  then on_http_response b
                  else on_http_error (curl_failed request.error))
                whole)
    ]
  where
    whole : request.response_body ++ concat chunks ≡ concat chunks
    whole = ap (λ b. b ++ concat chunks) e
