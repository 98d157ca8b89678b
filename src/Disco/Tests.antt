-- ===== src/Disco/Tests.antt =====
-- A message at a concrete input.
use tailfeather.Common.{ℕ, ◌≤◌, ◌≡◌, refl, arith, [], ◌∷◌, length, take, replicate, ok, none}
use tailfeather.Disco.{
  v4, v6, SocketAddr, Message, call_me_maybe, pong, message_bytes, encode, decode, to_ipv4_mapped,
}
use tailfeather.Disco.RoundTrip.{IsMessage, kept, decode-encode}

abbrev near : SocketAddr
near = record { ip = v4 (10 ∷ 0 ∷ 0 ∷ 1 ∷ []); port = 41641 }

abbrev far : SocketAddr
far = record { ip = v6 (replicate 16 0x20); port = 443 }

abbrev answer : Message
answer = pong (record { tx_id = replicate 12 7; src = near })

answer_run :
    message_bytes answer
    ≡ 2 ∷ 0 ∷ 7 ∷ 7 ∷ 7 ∷ 7 ∷ 7 ∷ 7 ∷ 7 ∷ 7 ∷ 7 ∷ 7 ∷ 7 ∷ 7 ∷ 0 ∷ 0 ∷ 0 ∷ 0 ∷ 0 ∷ 0 ∷ 0 ∷ 0 ∷ 0 ∷ 0
      ∷ 255 ∷ 255 ∷ 10 ∷ 0 ∷ 0 ∷ 1 ∷ 162 ∷ 169 ∷ []
unfolding message_bytes
answer_run = refl

-- Nine endpoints, of which eight are kept.
abbrev call : Message
call = call_me_maybe (far ∷ replicate 8 near)

far_is_v6 : to_ipv4_mapped (replicate 16 0x20) ≡ none
unfolding to_ipv4_mapped
far_is_v6 = refl

call-IsMessage : IsMessage call
call-IsMessage = (((omega arith, far_is_v6), omega arith), omega arith)

decode-encode_example :
    let (out', written) = encode call (replicate 200 9) in
    (written ≡ ok (length (message_bytes call)))
    × (decode (take (length (message_bytes call)) out') ≡ ok (kept call))
decode-encode_example = decode-encode call (replicate 200 9) call-IsMessage call_fits
  where
    call_fits : length (message_bytes call) ≤ length {A = ℕ} (replicate 200 9)
    call_fits = unfold message_bytes in omega arith
