-- ===== src/Networks/NtpClient.antt =====
-- Networks/NTPClient.h and Networks/NTPClient.cpp: the date and time from a time server. A `long` has 32
-- bits on the platform of the program, and is given by its bits; `time_t` has 64. The exchange over the
-- socket is an answer: the bytes received, or none when `receive_from` throws. `memory i` is what the
-- i-th byte of the buffer holds before, and `unset` the bits of the local variable for the time.
pub mod Seconds
use minority_viewport.Base.{
  ℕ, zero, suc, ◌+◌, ◌-◌, ◌*◌, ◌/◌, ◌%◌, ◌^◌, List, [], ◌∷◌, Bytes, Option, none, some,
}

-- The request: `010` is an octal number.
abbrev pub zeros : ℕ → List ℕ
zeros zero = []
zeros (suc n) = 0 ∷ zeros n

abbrev pub send_buf : List ℕ
send_buf = 8 ∷ zeros 47

-- The buffer after the reception.
unfoldable pub recv_buf : (ℕ → ℕ) → List ℕ → ℕ → ℕ
recv_buf memory [] i = memory i
recv_buf memory (b ∷ bs) zero = b
recv_buf memory (b ∷ bs) (suc i) = recv_buf (λ j. memory (suc j)) bs i

-- The word at an index of the buffer, with the lowest byte first.
abbrev pub word_at : (ℕ → ℕ) → ℕ → ℕ
word_at buf n =
    buf (4 * n) + 2 ^ 8 * buf (4 * n + 1) + 2 ^ 16 * buf (4 * n + 2) + 2 ^ 24 * buf (4 * n + 3)

-- `ntohl`: the bytes of a word in the other order.
abbrev pub ntohl : ℕ → ℕ
ntohl w =
    w % 2 ^ 8 * 2 ^ 24
    + w / 2 ^ 8 % 2 ^ 8 * 2 ^ 16
    + w / 2 ^ 16 % 2 ^ 8 * 2 ^ 8
    + w / 2 ^ 24 % 2 ^ 8

-- The subtraction is made in 64 bits, where it may wrap.
abbrev pub minus_epoch : ℕ → ℕ
minus_epoch t = (t + (2 ^ 64 - 2208988800)) % 2 ^ 64

unfoldable pub request_datetime_unix : ℕ → (ℕ → ℕ) → Option (List ℕ) → ℕ
unfolding recv_buf
request_datetime_unix unset memory none = unset % 2 ^ 32
request_datetime_unix unset memory (some received) =
    minus_epoch (ntohl (word_at (recv_buf memory received) 4)) % 2 ^ 32
