-- ===== src/Client/Wire.antt =====
-- A request and its answer between src/client/main.cpp and server/src/network/connection.cpp.
use redis_like.Client.Program.{
  Transfer, complete, failed, aborted, blocked, overrun, ◌>>=◌, read_full, write_all, k_max_msg,
  add_sizes, fill, send_req,
}
use redis_like.Protocol.Frames.{encode_str, encode_strs, encode_req, Fits}
use redis_like.Protocol.Words.{to_bytes, length-to_bytes}
use redis_like.Store.Objects.{Bytes}
use redis_like.Prelude.{
  ℕ, zero, suc, ◌+◌, ◌-◌, ◌%◌, ◌^◌, ◌≤◌, ◌<◌, ltb, false, List, [], ◌∷◌, ◌++◌, ◌≡◌, refl, sym, ap,
  ◌∙◌, arith, length, length-append, take, drop, All, append_assoc, Bool-cases, inl, inr,
}

abbrev pub joined : List Bytes → Bytes
joined [] = []
joined (chunk ∷ chunks) = chunk ++ joined chunks

-- What `read` returns while there is data.
abbrev pub AreChunks : List Bytes → Type 0
AreChunks chunks = All (λ chunk. 1 ≤ length chunk) chunks

-- However the bytes are cut, as many as were asked for are read.
pub read_full-joined :
    (chunks rest : List Bytes)
    → AreChunks chunks
    → read_full (chunks ++ rest) (length (joined chunks)) ≡ complete (joined chunks, rest)
unfolding read_full
read_full-joined [] [] k = refl
read_full-joined [] (r ∷ rest) k = refl
read_full-joined ([] ∷ chunks) rest (h, k) = absurd (omega arith)
read_full-joined ((b ∷ chunk) ∷ chunks) rest (h, k) =
    let l = length-append chunk (joined chunks) in
    let fits : ltb (length (chunk ++ joined chunks)) (length chunk) ≡ false = ground arith in
    let left : length (chunk ++ joined chunks) - length chunk ≡ length (joined chunks) =
      omega (arith, l) in
    rw (fits, left, read_full-joined chunks rest k) refl

take-drop : (n : ℕ) (s : Bytes) → take n s ++ drop n s ≡ s
take-drop zero s = refl
take-drop (suc n) [] = refl
take-drop (suc n) (b ∷ s) = ap (λ w. b ∷ w) (take-drop n s)

take-all : (s : Bytes) → take (length s) s ≡ s
take-all [] = refl
take-all (b ∷ s) = ap (λ w. b ∷ w) (take-all s)

-- What went out before, and what the later calls wrote.
write_all-rest :
    (call : Transfer Bytes) (x y sent : Bytes)
    → ((s : Bytes) → call ≡ complete s → s ≡ y)
    → (call >>= λ s. complete (x ++ s)) ≡ complete sent
    → sent ≡ x ++ y
write_all-rest (complete s) x y sent h e =
    let same : x ++ s ≡ sent = cc in sym same ∙ ap (λ w. x ++ w) (h s refl)
write_all-rest failed x y sent h e = absurd cc
write_all-rest aborted x y sent h e = absurd cc
write_all-rest blocked x y sent h e = absurd cc
write_all-rest overrun x y sent h e = absurd cc

-- What went out when `write_all` is done is all that was to be written.
pub write_all-complete :
    (counts : List ℕ) (buf sent : Bytes) → write_all counts buf ≡ complete sent → sent ≡ buf
unfolding write_all
write_all-complete [] [] sent e = cc
write_all-complete (c ∷ counts) [] sent e = cc
write_all-complete [] (b ∷ buf) sent e = absurd cc
write_all-complete (zero ∷ counts) (b ∷ buf) sent e = absurd cc
write_all-complete (suc rv ∷ counts) (b ∷ buf) sent e = elim (Bool-cases (ltb (length buf) rv)) [
  | inl over ↦ (let no : aborted ≡ complete sent = (rw over at e) in absurd cc)
  | inr fits ↦
      write_all-rest (write_all counts (drop rv buf)) (b ∷ take rv buf) (drop rv buf) sent
        (λ s. write_all-complete counts (drop rv buf) s) (rw fits at e)
      ∙ ap (λ w. b ∷ w) (take-drop rv buf)
]

pub length-encode_strs :
    (cmd : List Bytes) (len : ℕ)
    → len + length (encode_strs cmd) < 2 ^ 32
    → (add_sizes len cmd ≡ len + length (encode_strs cmd))
      × (fill cmd ≡ encode_strs cmd)
      × All Fits cmd
      × (length cmd ≤ length (encode_strs cmd))
unfolding add_sizes fill
length-encode_strs [] len h = (omega arith, refl, tt, omega arith)
length-encode_strs (s ∷ cmd) len h =
    let whole = length-append (encode_str s) (encode_strs cmd) in
    let own = length-append (to_bytes (length s)) s in
    let four = length-to_bytes (length s) in
    let exact : (len + (4 + length s)) % 2 ^ 32 ≡ len + (4 + length s) = omega arith in
    let fit : length s % 2 ^ 32 ≡ length s = omega arith in
    let (sizes, same, fits, few) = length-encode_strs cmd (len + (4 + length s)) (omega arith) in
    (
      rw exact (omega (arith, sizes, whole, own, four)),
      rw (fit, same) refl,
      (omega arith, fits),
      omega (arith, few, whole, own, four),
    )

-- The frame that `send_req` writes is the documented one, with its length in front.
pub send_req-encode :
    (counts : List ℕ) (cmd : List Bytes)
    → length (encode_req cmd) ≤ k_max_msg
    → send_req counts cmd ≡ write_all counts (encode_str (encode_req cmd))
unfolding send_req
send_req-encode counts cmd h =
    let head = length-append (to_bytes (length cmd)) (encode_strs cmd) in
    let four = length-to_bytes (length cmd) in
    let (sizes, same, fits, few) = length-encode_strs cmd 4 (omega arith) in
    let body = encode_req cmd in
    let fit : length cmd % 2 ^ 32 ≡ length cmd = omega arith in
    let len : add_sizes 4 cmd ≡ length body = omega arith in
    let small : ltb k_max_msg (length body) ≡ false = ground arith in
    let own = length-append (to_bytes (length body)) body in
    let four' = length-to_bytes (length body) in
    let room : ltb (4 + k_max_msg) (length (to_bytes (length body) ++ body)) ≡ false =
      ground arith in
    let all : 4 + length body ≡ length (to_bytes (length body) ++ body) = omega arith in
    let wbuf : to_bytes (length body) ++ to_bytes (length cmd) ++ encode_strs cmd
        ≡ to_bytes (length body) ++ body =
      append_assoc (to_bytes (length body)) (to_bytes (length cmd)) (encode_strs cmd) in
    let whole =
      ap (λ w. take w (to_bytes (length body) ++ body)) all
      ∙ take-all (to_bytes (length body) ++ body) in
    rw (len, fit, same) (rw (wbuf, small) (rw room (ap (write_all counts) whole)))
