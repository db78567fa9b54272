-- ===== src/Devices/Info.antt =====
-- `save_device_info` of src/rdma_common.cpp: the file with GID, LID, queue pair number and time that
-- is uploaded. What the file system answers is an input.
use pingweave.Base.{
  ℕ, zero, suc, ◌+◌, ◌/◌, ◌%◌, ◌^◌, ◌<◌, ◌≡◌, refl, ap, ◌∙◌, inl, inr, Bool, true, false, not, ◌&&◌,
  Option, none, some, List, [], ◌∷◌, ◌++◌, arith, success, failure, ◌==◌, if◌then◌else◌, Bool-cases,
  length, All,
}
use pingweave.Base.Int.{pos}
use pingweave.Base.Text.{Text, lines, lines_append}
use pingweave.Base.Decimal.{print, print_loop, stoi, stoi-print}
use pingweave.Gid.{
  gid_to_wire_gid, wire_gid_to_gid, print_hex, print_words, hex_digit, htobe32, words,
}
use pingweave.Gid.Wire.{IsByte, wire_gid_to_gid-gid_to_wire_gid}

-- `write_ok` is the state of the stream after the insertions, `flush_ok` whether `close` can write out
-- what is buffered, and `partial` what is in the file of a text where either fails.
pub record Disk : Type 0 where
  pub dir_exists : Bool
  pub mkdir_ok : Bool
  pub open_ok : Bool
  pub write_ok : Bool
  pub flush_ok : Bool
  pub partial : Text → Text

pub record Info : Type 0 where
  pub ipv4 : Text
  pub gid : List ℕ
  pub lid : ℕ
  pub qp_num : ℕ

abbrev pub info_text : Info → Text → Text
info_text ctx now =
    gid_to_wire_gid ctx.gid ++ (10 ∷ (print ctx.lid ++ (10 ∷ (print ctx.qp_num ++ (10 ∷ now)))))

-- The name and the text of the file that was written, if one was opened. The stream is tested before
-- it is closed, and not after.
unfoldable pub save_device_info : Disk → Text → Info → Text → Option (Text × Text) × Bool
save_device_info disk directory ctx now =
    if not disk.dir_exists && not disk.mkdir_ok
    then (none, failure)
    else (if not disk.open_ok then (none, failure) else (
      some (
        directory ++ (b'/' ∷ ctx.ipv4),
        if disk.write_ok && disk.flush_ok
            then info_text ctx now
            else disk.partial (info_text ctx now),
      ),
      if disk.write_ok then success else failure,
    ))

abbrev pub OneLine : Text → Type 0
OneLine = All (λ c. (c == 10) ≡ false)

OneLine-append : (s t : Text) → OneLine s → OneLine t → OneLine (s ++ t)
OneLine-append [] t h k = k
OneLine-append (c ∷ s) t (h, hs) k = (h, OneLine-append s t hs k)

print_loop-OneLine : (fuel n : ℕ) (out : Text) → OneLine out → OneLine (print_loop fuel n out)
print_loop-OneLine zero n out h = h
print_loop-OneLine (suc fuel) n out h = elim (Bool-cases (n == 0)) [
  | inl b ↦ rw b h
  | inr b ↦ rw b (print_loop-OneLine fuel (n / 10) ((b'0' + n % 10) ∷ out) (ground arith, h))
]

print-OneLine : (n : ℕ) → OneLine (print n)
unfolding print
print-OneLine n = elim (Bool-cases (n == 0)) [
  | inl b ↦ rw b (refl, tt)
  | inr b ↦ rw b (print_loop-OneLine n n [] tt)
]

hex_digit_lem : (d : ℕ) → (hex_digit d == 10) ≡ false
hex_digit_lem d = ground arith

print_hex-OneLine : (k n : ℕ) → OneLine (print_hex k n)
print_hex-OneLine zero n = tt
print_hex-OneLine (suc k) n =
    OneLine-append (print_hex k (n / 16)) _ (print_hex-OneLine k (n / 16))
      (hex_digit_lem (n % 16), tt)

print_words-OneLine : (ws : List ℕ) → OneLine (print_words ws)
print_words-OneLine [] = tt
print_words-OneLine (w ∷ ws) =
    OneLine-append (print_hex 8 (htobe32 w)) _ (print_hex-OneLine 8 (htobe32 w))
      (print_words-OneLine ws)

gid_to_wire_gid-OneLine : (gid : List ℕ) → OneLine (gid_to_wire_gid gid)
unfolding gid_to_wire_gid
gid_to_wire_gid-OneLine gid = print_words-OneLine (words gid)

lines_last : (c : ℕ) (s : Text) → OneLine (c ∷ s) → lines (c ∷ s) ≡ (c ∷ s) ∷ []
lines_last c [] (h, hs) = rw h refl
lines_last c (d ∷ s) (h, hs) = rw (h, lines_last d s hs) refl

-- A call that succeeds, where the final flush of the stream does, has written, under the address in the
-- directory, four lines: a GID that is read back, the LID and the queue pair number in decimal as
-- `stoi` reads them back, and the time.
pub save_device_info_lem :
    (disk : Disk) (directory : Text) (ctx : Info) (c : ℕ) (cs : Text) (v32 : ℕ)
    → length ctx.gid ≡ 16
    → All IsByte ctx.gid
    → ctx.lid < 2 ^ 16
    → ctx.qp_num < 2 ^ 24
    → OneLine (c ∷ cs)
    → disk.flush_ok ≡ true
    → (save_device_info disk directory ctx (c ∷ cs)).1 ≡ success
    → (text : Text) × (g : Text) × (l : Text) × (q : Text) × ((save_device_info disk directory ctx
          (c ∷ cs)).0
        ≡ some (directory ++ (b'/' ∷ ctx.ipv4), text))
      × (lines text ≡ g ∷ l ∷ q ∷ (c ∷ cs) ∷ [])
      × (wire_gid_to_gid v32 g ≡ ctx.gid)
      × (stoi l ≡ some (pos ctx.lid))
      × (stoi q ≡ some (pos ctx.qp_num))
unfolding save_device_info
save_device_info_lem disk directory ctx c cs v32 sixteen all_bytes lid qpn line flushed done =
    let g = gid_to_wire_gid ctx.gid in
    let l = print ctx.lid in
    let q = print ctx.qp_num in
    (
      info_text ctx (c ∷ cs),
      g,
      l,
      q,
      ground arith,
      lines_append g (l ++ (10 ∷ (q ++ (10 ∷ (c ∷ cs))))) (gid_to_wire_gid-OneLine ctx.gid)
          ∙ ap (◌∷◌ g) (
              lines_append l (q ++ (10 ∷ (c ∷ cs))) (print-OneLine ctx.lid)
              ∙ ap (◌∷◌ l) (
                  lines_append q (c ∷ cs) (print-OneLine ctx.qp_num)
                  ∙ ap (◌∷◌ q) (lines_last c cs line))),
      wire_gid_to_gid-gid_to_wire_gid v32 ctx.gid sixteen all_bytes,
      stoi-print ctx.lid (omega arith),
      stoi-print ctx.qp_num (omega arith),
    )
