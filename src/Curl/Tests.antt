-- ===== src/Curl/Tests.antt =====
-- Tests of the requests.
use mpdscribble.Base.{inl, ◌≡◌, refl, List, [], ◌∷◌, Bytes, arith, codes}
use mpdscribble.Base.Int.{pos, negsuc}
use mpdscribble.Curl.{CurlRequest, curle_ok, write_function, done, socket_action}
use mpdscribble.Curl.Transfer.{received, outcome, concat, done-received}
use mpdscribble.Event.Loop.{schedule_coarse, schedule_defer, cancel_coarse}

abbrev fresh : CurlRequest
fresh = record { request_body = []; response_body = []; error = codes "no route" }

abbrev two_chunks : List Bytes
two_chunks = codes "OK" ∷ codes "\nsid" ∷ []

done-received_example :
    done curle_ok (received two_chunks fresh)
    ≡ outcome (concat two_chunks) (codes "no route") curle_ok
unfolding write_function
done-received_example =
    done-received two_chunks fresh curle_ok refl
      (omega arith, inl refl, (omega arith, inl refl, tt))

asks_one_ms :
    socket_action (negsuc 0 ∷ pos 0 ∷ [])
    ≡ cancel_coarse 0 ∷ schedule_coarse 0 1000000 ∷ schedule_defer 0 ∷ []
unfolding socket_action
asks_one_ms = refl
