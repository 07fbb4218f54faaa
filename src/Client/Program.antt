-- ===== src/Client/Program.antt =====
-- src/client/main.cpp: a request on its way to the server, and the answer on its way back. The system
-- calls are what they return: `read` the bytes, none where it fails or the connection is closed, and
-- `write` how many bytes it took.
use redis_like.Protocol.Words.{to_bytes, of_bytes}
use redis_like.Prelude.Numbers.{is_space}
use redis_like.Store.Objects.{Bytes, same_bytes}
use redis_like.Prelude.{
  ℕ, zero, suc, ◌+◌, ◌-◌, ◌%◌, ◌^◌, ltb, if◌then◌else◌, ◌||◌, List, [], ◌∷◌, ◌++◌, length, take,
  drop, bytes,
}

-- What a loop of system calls comes to: its result, -1, a failed `assert`, a call that does not
-- return, or a write behind the end of a buffer.
pub data Transfer (A : Type 0) : Type 0 where
  complete : A → Transfer A
  failed : Transfer A
  aborted : Transfer A
  blocked : Transfer A
  overrun : Transfer A

infixl 5 ◌>>=◌
abbrev pub ◌>>=◌ : {A B : Type 0} → Transfer A → (A → Transfer B) → Transfer B
overrun >>= next = overrun
blocked >>= next = blocked
aborted >>= next = aborted
failed >>= next = failed
complete a >>= next = next a

-- `read_full` of `n` bytes: the bytes, and what later calls of `read` return.
unfoldable pub read_full : List Bytes → ℕ → Transfer (Bytes × List Bytes)
read_full reads zero = complete ([], reads)
read_full [] (suc n) = blocked
read_full ([] ∷ reads) (suc n) = failed
read_full ((b ∷ chunk) ∷ reads) (suc n) =
    let rest = read_full reads (n - length chunk) in
    if ltb n (length chunk)
    then aborted
    else rest >>= λ (body, reads'). complete (b ∷ chunk ++ body, reads')

-- `write_all`: the bytes that went out.
unfoldable pub write_all : List ℕ → Bytes → Transfer Bytes
write_all counts [] = complete []
write_all [] (b ∷ buf) = blocked
write_all (zero ∷ counts) (b ∷ buf) = failed
write_all (suc rv ∷ counts) (b ∷ buf) =
    let rest = write_all counts (drop rv buf) in
    if ltb (length buf) rv then aborted else rest >>= λ sent. complete (b ∷ take rv buf ++ sent)

abbrev pub k_max_msg : ℕ
k_max_msg = 4096

-- The loop of `send_req` over the sizes, in a `uint32_t`.
unfoldable pub add_sizes : ℕ → List Bytes → ℕ
add_sizes len [] = len
add_sizes len (s ∷ cmd) = add_sizes ((len + (4 + length s)) % 2 ^ 32) cmd

-- The loop of `send_req` that fills `wbuf`.
unfoldable pub fill : List Bytes → Bytes
fill [] = []
fill (s ∷ cmd) = to_bytes (length s % 2 ^ 32) ++ s ++ fill cmd

-- The buffer has room for as many bytes as the length that was tested.
unfoldable pub send_req : List ℕ → List Bytes → Transfer Bytes
unfolding add_sizes fill write_all
send_req counts cmd =
    let len = add_sizes 4 cmd in
    let wbuf = to_bytes len ++ to_bytes (length cmd % 2 ^ 32) ++ fill cmd in
    if ltb k_max_msg len
    then failed
    else if ltb (4 + k_max_msg) (length wbuf)
    then overrun
    else write_all counts (take (4 + len) wbuf)

-- `read_res`: the body of the answer, which is printed, and what later calls of `read` return.
unfoldable pub read_res : List Bytes → Transfer (Bytes × List Bytes)
unfolding read_full
read_res reads = do
  (rbuf, reads') ← read_full reads 4
  if ltb k_max_msg (of_bytes rbuf) then failed else read_full reads' (of_bytes rbuf)

-- A word is put in front of those that follow it.
abbrev pub push_word : Bytes → List Bytes → List Bytes
push_word [] words = words
push_word (c ∷ word) words = (c ∷ word) ∷ words

-- The loop of `>>`: the word that the line starts with, and those behind it.
unfoldable pub split : Bytes → Bytes × List Bytes
split [] = ([], [])
split (c ∷ input) =
    let (word, words) = split input in
    if is_space c then ([], push_word word words) else (c ∷ word, words)

-- What a line of the user comes to.
pub data Line : Type 0 where
  quit : Line
  skipped : Line
  request : List Bytes → Line

-- No words are no request.
abbrev pub request_of : List Bytes → Line
request_of [] = skipped
request_of (s ∷ cmd) = request (s ∷ cmd)

-- A round of the interactive loop of `main`, up to the request.
unfoldable pub read_input : Bytes → Line
unfolding split same_bytes bytes
read_input input =
    let (word, words) = split input in
    if same_bytes input (bytes "quit")
      || same_bytes input (bytes "exit")
      || same_bytes input (bytes "q")
    then quit
    else request_of (push_word word words)
