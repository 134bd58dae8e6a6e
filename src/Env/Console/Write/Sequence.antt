-- ===== src/Env/Console/Write/Sequence.antt =====
-- Control sequences of numbers, written to the console of kernel/env/console.rs.
use redox.Prelude.{
  ℕ, ◌≡◌, ◌≤◌, ◌<◌, ◌∙◌, refl, ap, true, false, ◌&&◌, leb, ◌==◌, List, [], ◌∷◌, ◌++◌, append-nil,
  append_assoc, arith,
}
use redox.Env.Console.{Console, push_last, control, finish, code}
use redox.Env.Console.Write.{sent, write_byte, write_bytes}

unfoldable pub Digits : List ℕ → Type 0
Digits [] = Unit
Digits (b ∷ s) = (0x30 ≤ b) × (b ≤ 0x39) × Digits s

unfoldable pub AllDigits : List (List ℕ) → Type 0
AllDigits [] = Unit
AllDigits (p ∷ params) = Digits p × AllDigits params

-- The parameters as a sequence has them: a semicolon between two.
unfoldable pub join : List ℕ → List (List ℕ) → List ℕ
join p [] = p
join p (q ∷ params) = p ++ 0x3B ∷ join q params

-- Within a control sequence that has given the parameters so far.
abbrev pub reading : Console → List (List ℕ) → List ℕ → Console
reading base params out = record base {
  escape = true;
  escape_sequence = true;
  sequence = params;
  serial = out;
}

push_last-append :
    (params : List (List ℕ)) (p : List ℕ) (b : ℕ)
    → push_last (params ++ p ∷ []) b ≡ params ++ (p ++ b ∷ []) ∷ []
unfolding push_last
push_last-append [] p b = refl
push_last-append (q ∷ []) p b = refl
push_last-append (q ∷ r ∷ params) p b = ap (λ t. q ∷ t) (push_last-append (r ∷ params) p b)

module _ (modulus : ℕ) (font : ℕ → ℕ) where
  pub write_bytes-append :
      (a b : List ℕ) (c : Console)
      → write_bytes modulus font (a ++ b) c
        ≡ write_bytes modulus font b (write_bytes modulus font a c)
  unfolding write_bytes
  write_bytes-append [] b c = refl
  write_bytes-append (x ∷ a) b c = write_bytes-append a b (write_byte modulus font x c)

  write_byte_digit :
      (base : Console) (params : List (List ℕ)) (out : List ℕ) (b : ℕ)
      → 0x30 ≤ b
      → b ≤ 0x39
      → write_byte modulus font b (reading base params out)
        ≡ reading base (push_last params b) (out ++ b ∷ [])
  unfolding write_byte code sent
  write_byte_digit base params out b lo hi =
      let t : leb 0x30 b && leb b 0x39 ≡ true = ground arith in
      let f : (b == 8) ≡ false = ground arith in rw (write_byte, code, sent, t, f) refl

  write_byte_split :
      (base : Console) (params : List (List ℕ)) (out : List ℕ)
      → write_byte modulus font 0x3B (reading base params out)
        ≡ reading base (params ++ [] ∷ []) (out ++ 0x3B ∷ [])
  unfolding write_byte code sent
  write_byte_split base params out = refl

  write_bytes-Digits :
      (base : Console) (params : List (List ℕ)) (p out s : List ℕ)
      → Digits s
      → write_bytes modulus font s (reading base (params ++ p ∷ []) out)
        ≡ reading base (params ++ (p ++ s) ∷ []) (out ++ s)
  unfolding write_bytes Digits
  write_bytes-Digits base params p out [] d = simp append-nil
  write_bytes-Digits base params p out (b ∷ s) (lo, hi, d) =
      rw (write_byte_digit base (params ++ p ∷ []) out b lo hi, push_last-append params p b)
        (write_bytes-Digits base params (p ++ b ∷ []) (out ++ b ∷ []) s d ∙ simp append_assoc)

  write_bytes-join :
      (base : Console) (params : List (List ℕ)) (out p : List ℕ) (rest : List (List ℕ))
      → Digits p
      → AllDigits rest
      → write_bytes modulus font (join p rest) (reading base (params ++ [] ∷ []) out)
        ≡ reading base (params ++ p ∷ rest) (out ++ join p rest)
  unfolding join AllDigits write_bytes
  write_bytes-join base params out p [] d all = write_bytes-Digits base params [] out p d
  write_bytes-join base params out p (q ∷ rest) d (d', all) =
      write_bytes-append p (0x3B ∷ join q rest) (reading base (params ++ [] ∷ []) out)
      ∙ ap (write_bytes modulus font (0x3B ∷ join q rest))
          (write_bytes-Digits base params [] out p d)
      ∙ ap (write_bytes modulus font (join q rest))
          (write_byte_split base (params ++ p ∷ []) (out ++ p))
      ∙ write_bytes-join base (params ++ p ∷ []) (out ++ p ++ 0x3B ∷ []) q rest d' all
      ∙ simp append_assoc

  write_byte_open :
      (base : Console)
      → base.escape ≡ true
      → base.escape_sequence ≡ false
      → base.sequence ≡ []
      → write_byte modulus font 0x5B base ≡ reading base ([] ∷ []) (base.serial ++ 0x5B ∷ [])
  unfolding write_byte code sent
  write_byte_open base e es seq = rw (write_byte, code, sent, e, es, seq) refl

  write_byte_end :
      (base : Console) (params : List (List ℕ)) (out : List ℕ) (b : ℕ)
      → 0x3B < b
      → write_byte modulus font b (reading base params out)
        ≡ sent b (finish (control modulus b (reading base params out)))
  unfolding write_byte code
  write_byte_end base params out b lo =
      let f : leb 0x30 b && leb b 0x39 ≡ false = ground arith in
      let f' : (b == 0x3B) ≡ false = ground arith in rw (write_byte, code, f, f') refl

  pub write_bytes-control :
      (base : Console) (p : List ℕ) (rest : List (List ℕ)) (b : ℕ)
      → base.escape ≡ true
      → base.escape_sequence ≡ false
      → base.sequence ≡ []
      → Digits p
      → AllDigits rest
      → 0x3B < b
      → write_bytes modulus font (0x5B ∷ join p rest ++ b ∷ []) base
        ≡ sent b (
            finish
              (control modulus b (reading base (p ∷ rest) (base.serial ++ 0x5B ∷ join p rest))))
  unfolding write_bytes
  write_bytes-control base p rest b e es seq d all lo =
      ap (write_bytes modulus font (join p rest ++ b ∷ [])) (write_byte_open base e es seq)
      ∙ write_bytes-append (join p rest) (b ∷ [])
          (reading base ([] ∷ []) (base.serial ++ 0x5B ∷ []))
      ∙ ap (write_bytes modulus font (b ∷ []))
          (write_bytes-join base [] (base.serial ++ 0x5B ∷ []) p rest d all)
      ∙ write_byte_end base (p ∷ rest) (base.serial ++ 0x5B ∷ [] ++ join p rest) b lo
      ∙ ap (λ out. sent b (finish (control modulus b (reading base (p ∷ rest) out))))
          (append_assoc base.serial (0x5B ∷ []) (join p rest))
