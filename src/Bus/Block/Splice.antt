-- ===== src/Bus/Block/Splice.antt =====
-- Bytes written over a part of the frame.
use zephyr_cyw43_driver.Prelude.{
  ℕ, suc, ◌+◌, ◌≤◌, ◌≡◌, arith, ap, ◌∙◌, List, ◌++◌, some, take, drop, length, length-append,
  length-take, length-drop, take-append_of_le, drop-take-append, drop-append_of_le,
}
use mathlib.Core.List.{append_assoc}
use zephyr_cyw43_driver.Bus.Word.{word_bytes}
use zephyr_cyw43_driver.Bus.Transfer.{write_bytes_at}

-- `bytes` over the frame, from the offset `at` on.
abbrev pub splice : List ℕ → ℕ → List ℕ → List ℕ
splice frame at bytes = take at frame ++ (bytes ++ drop (at + length bytes) frame)

pub length-splice :
    (frame : List ℕ) (at : ℕ) (bytes : List ℕ)
    → at + length bytes ≤ length frame
    → length (splice frame at bytes) ≡ length frame
length-splice frame at bytes h = omega (
  arith,
  length-append (take at frame) (bytes ++ drop (at + length bytes) frame),
  length-append bytes (drop (at + length bytes) frame),
  length-take at frame,
  length-drop (at + length bytes) frame,
)

pub drop-splice :
    (frame : List ℕ) (at j : ℕ) (bytes : List ℕ)
    → at ≤ length frame
    → j ≤ length bytes
    → drop (at + j) (splice frame at bytes) ≡ drop j bytes ++ drop (at + length bytes) frame
drop-splice frame at j bytes h k =
    drop-take-append at j frame (bytes ++ drop (at + length bytes) frame) h
    ∙ drop-append_of_le j bytes (drop (at + length bytes) frame) k

pub write_bytes_at-splice :
    (frame : List ℕ) (at : ℕ) (bytes : List ℕ)
    → at + length bytes ≤ length frame
    → write_bytes_at frame at bytes ≡ some (splice frame at bytes)
write_bytes_at-splice frame at bytes h =
    ground (arith, append_assoc (take at frame) bytes (drop (at + length bytes) frame))

-- The answer behind the padding, from a frame that holds the command and the answer.
pub take-answer :
    (frame rest : List ℕ) (at pad len cmd : ℕ) (answer : List ℕ)
    → at ≤ length frame
    → pad + len ≤ length answer
    → let bytes : List ℕ = word_bytes cmd ++ answer ++ rest in
      take len (drop (at + suc (suc (suc (suc pad)))) (splice frame at bytes))
      ≡ take len (drop pad answer)
take-answer frame rest at pad len cmd answer h k =
    let bytes : List ℕ = word_bytes cmd ++ answer ++ rest in
    let e : length bytes ≡ suc (suc (suc (suc (length answer + length rest)))) =
      omega (arith, length-append answer rest) in
    let tail : List ℕ = drop (at + length bytes) frame in
    let keeps : pad ≤ length (answer ++ rest) = omega (arith, length-append answer rest) in
    let fits : len ≤ length (drop pad answer) = omega (arith, length-drop pad answer) in
    let inside : pad ≤ length answer = omega arith in
    ap (take len) (drop-splice frame at (suc (suc (suc (suc pad)))) bytes h (omega (arith, keeps)))
    ∙ ap (λ t. take len (t ++ tail)) (drop-append_of_le pad answer rest inside)
    ∙ (take-append_of_le len (drop pad answer ++ rest) tail
        (omega (arith, fits, length-append (drop pad answer) rest)))
    ∙ take-append_of_le len (drop pad answer) rest fits
