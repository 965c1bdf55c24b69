-- ===== src/Networks/NtpClient/Seconds.antt =====
-- Which time the NTP client answers with.
use minority_viewport.Base.{
  ℕ, zero, suc, ◌+◌, ◌-◌, ◌*◌, ◌%◌, ◌^◌, ◌<◌, List, [], ◌∷◌, some, get_elem?, leb, if◌then◌else◌,
  ◌≡◌, arith,
}
use minority_viewport.Networks.NtpClient.{recv_buf, ntohl, minus_epoch, request_datetime_unix}

recv_buf-get_elem? :
    (memory : ℕ → ℕ) (received : List ℕ) (i : ℕ) {b : ℕ}
    → get_elem? received i ≡ some b
    → recv_buf memory received i ≡ b
unfolding recv_buf
recv_buf-get_elem? memory [] i e = cc
recv_buf-get_elem? memory (x ∷ xs) zero e = cc
recv_buf-get_elem? memory (x ∷ xs) (suc i) e = recv_buf-get_elem? (λ j. memory (suc j)) xs i e

-- The seconds of four bytes, the highest first.
abbrev pub seconds : ℕ → ℕ → ℕ → ℕ → ℕ
seconds b0 b1 b2 b3 = 2 ^ 24 * b0 + 2 ^ 16 * b1 + 2 ^ 8 * b2 + b3

ntohl-word :
    (b0 b1 b2 b3 : ℕ)
    → b0 < 256
    → b1 < 256
    → b2 < 256
    → b3 < 256
    → ntohl (b0 + 2 ^ 8 * b1 + 2 ^ 16 * b2 + 2 ^ 24 * b3) ≡ seconds b0 b1 b2 b3
ntohl-word b0 b1 b2 b3 h0 h1 h2 h3 = omega arith

wraps :
    (s : ℕ)
    → s < 2 ^ 32
    → minus_epoch s % 2 ^ 32
      ≡ (if leb 2208988800 s then s - 2208988800 else s + 2 ^ 32 - 2208988800)
wraps s h = ground arith

-- The answer to a packet is made of its four bytes from the 16th on, the seconds of the time at which
-- the server's clock was last set, whatever else it has in it and whatever the memory held: the seconds
-- from 1970 on, and for a time before 1970 what wraps in 32 bits.
pub request_datetime_unix-seconds :
    (unset : ℕ) (memory : ℕ → ℕ) (received : List ℕ) (b0 b1 b2 b3 : ℕ)
    → get_elem? received 16 ≡ some b0
    → get_elem? received 17 ≡ some b1
    → get_elem? received 18 ≡ some b2
    → get_elem? received 19 ≡ some b3
    → b0 < 256
    → b1 < 256
    → b2 < 256
    → b3 < 256
    → request_datetime_unix unset memory (some received) ≡ (
        let s = seconds b0 b1 b2 b3 in
        if leb 2208988800 s then s - 2208988800 else s + 2 ^ 32 - 2208988800)
unfolding request_datetime_unix
request_datetime_unix-seconds unset memory received b0 b1 b2 b3 e0 e1 e2 e3 h0 h1 h2 h3 =
    let at16 = recv_buf-get_elem? memory received 16 e0 in
    let at17 = recv_buf-get_elem? memory received 17 e1 in
    let at18 = recv_buf-get_elem? memory received 18 e2 in
    let at19 = recv_buf-get_elem? memory received 19 e3 in
    rw (at16, at17, at18, at19, ntohl-word b0 b1 b2 b3 h0 h1 h2 h3)
      (wraps (seconds b0 b1 b2 b3) (omega arith))
