-- ===== src/System/Packet.antt =====
-- The packets of system calls to a scheme, crates/system/scheme.rs, in 64 bits: their bytes, and how
-- a program that serves a scheme answers one. Memory of that program is what its operations keep.
pub mod Bytes
use redox.Prelude.{
  ℕ, zero, suc, ◌+◌, ◌*◌, ◌/◌, ◌%◌, ◌^◌, List, [], ◌∷◌, ◌++◌, ◌==◌, if◌then◌else◌, take, drop,
}
use redox.System.Error.{Result, ok, err, mux}

pub record Packet : Type 0 where
  pub id : ℕ
  pub a : ℕ
  pub b : ℕ
  pub c : ℕ
  pub d : ℕ

-- The bytes of a `usize` in memory, low byte first.
pub word_bytes : ℕ → ℕ → List ℕ
word_bytes zero value = []
word_bytes (suc n) value = value % 256 ∷ word_bytes n (value / 256)

pub word_at : List ℕ → ℕ
word_at [] = 0
word_at (b ∷ bytes) = b + 256 * word_at bytes

-- `Deref for Packet`
pub packet_bytes : Packet → List ℕ
unfolding word_bytes
packet_bytes p =
    word_bytes 8 p.id
    ++ (word_bytes 8 p.a ++ (word_bytes 8 p.b ++ (word_bytes 8 p.c ++ word_bytes 8 p.d)))

-- The packet at the front of at least 40 bytes.
pub packet_at : List ℕ → Packet
unfolding word_at
packet_at bytes = record {
  id = word_at (take 8 bytes);
  a = word_at (take 8 (drop 8 bytes));
  b = word_at (take 8 (drop 16 bytes));
  c = word_at (take 8 (drop 24 bytes));
  d = word_at (take 8 (drop 32 bytes));
}

-- The operations of `Scheme`, of a program with the state `H`. A buffer is its address and length.
pub record Scheme {ℓ} (H : Type ℓ) : Type ℓ where
  pub open_path : H → List ℕ → ℕ → ℕ → Result × H
  pub mkdir : H → List ℕ → ℕ → Result × H
  pub rmdir : H → List ℕ → Result × H
  pub unlink : H → List ℕ → Result × H
  pub read : H → ℕ → ℕ → ℕ → Result × H
  pub write : H → ℕ → ℕ → ℕ → Result × H
  pub seek : H → ℕ → ℕ → ℕ → Result × H
  pub fpath : H → ℕ → ℕ → ℕ → Result × H
  pub fstat : H → ℕ → ℕ → Result × H
  pub fsync : H → ℕ → Result × H
  pub ftruncate : H → ℕ → ℕ → Result × H
  pub close : H → ℕ → Result × H

-- The operations that a program does not define: ENOENT and EBADF.
unfoldable pub default_scheme {ℓ} : {H : Type ℓ} → Scheme H
default_scheme = record {
  open_path = λ h path flags mode. (err 2, h);
  mkdir = λ h path mode. (err 2, h);
  rmdir = λ h path. (err 2, h);
  unlink = λ h path. (err 2, h);
  read = λ h id buf len. (err 9, h);
  write = λ h id buf len. (err 9, h);
  seek = λ h id pos whence. (err 9, h);
  fpath = λ h id buf len. (err 9, h);
  fstat = λ h id stat. (err 9, h);
  fsync = λ h id. (err 9, h);
  ftruncate = λ h id len. (err 9, h);
  close = λ h id. (err 9, h);
}

-- `string_at` is `c_string_to_str` in the memory of the program.
module _ {ℓ} {H : Type ℓ} (scheme : Scheme H) (string_at : H → ℕ → List ℕ) where
  -- The `match` of `handle`; ENOSYS for other calls.
  unfoldable pub dispatch : H → Packet → Result × H
  dispatch h p =
      if p.a == 5
      then scheme.open_path h (string_at h p.b) p.c p.d
      else (if p.a == 39
          then scheme.mkdir h (string_at h p.b) p.c
          else (if p.a == 84
              then scheme.rmdir h (string_at h p.b)
              else (if p.a == 10
                  then scheme.unlink h (string_at h p.b)
                  else (if p.a == 3
                      then scheme.read h p.b p.c p.d
                      else (if p.a == 4
                          then scheme.write h p.b p.c p.d
                          else (if p.a == 19
                              then scheme.seek h p.b p.c p.d
                              else (if p.a == 928
                                  then scheme.fpath h p.b p.c p.d
                                  else (if p.a == 28
                                      then scheme.fstat h p.b p.c
                                      else (if p.a == 118
                                          then scheme.fsync h p.b
                                          else (if p.a == 93
                                              then scheme.ftruncate h p.b p.c
                                              else (if p.a == 6
                                                  then scheme.close h p.b
                                                  else (err 38, h))))))))))))

  unfoldable pub handle : H → Packet → Packet × H
  unfolding dispatch
  handle h p = let (result, h') = dispatch h p in (record p { a = mux result }, h')
