-- ===== src/Menu/Dump/Handles.antt =====
-- A dump closes what it opens.
use msm8909pkg.Base.{ℕ, suc, ◌≡◌, refl, ◌∙◌, List, if◌then◌else◌, if_split}
use msm8909pkg.Menu.Dump.{
  Files, efi_error, write_and_close, open_and_write, in_volume, read_memory_and_write_to_file,
}

module _ {S : Type 0} (f : Files S) (handles : S → ℕ) where
  -- The open handles: an open that succeeds adds one, one that fails adds none, and a close takes one.
  pub record Counts : Type 0 where
    pub locate_keeps : (s : S) → handles (f.locate_protocol s).1 ≡ handles s
    pub volume_adds :
        (s : S)
        → handles (f.open_volume s).1
          ≡ (if efi_error (f.open_volume s).0 then handles s else suc (handles s))
    pub file_adds :
        (path : List ℕ) (s : S)
        → handles (f.open_file path s).1
          ≡ (if efi_error (f.open_file path s).0 then handles s else suc (handles s))
    pub write_keeps : (a n : ℕ) (s : S) → handles (f.write_file a n s).1 ≡ handles s
    pub close_file_takes : (n : ℕ) (s : S) → handles s ≡ suc n → handles (f.close_file s) ≡ n
    pub close_root_takes : (n : ℕ) (s : S) → handles s ≡ suc n → handles (f.close_root s) ≡ n

  module _ (counts : Counts) (address length : ℕ) (path : List ℕ) where
    write_and_close-handles :
        (n : ℕ) (s : S)
        → handles s ≡ suc (suc n)
        → handles (write_and_close f address length s).1 ≡ n
    unfolding write_and_close
    write_and_close-handles n s e =
        let s' = (f.write_file address length s).1 in
        counts.close_root_takes n (f.close_file s')
          (counts.close_file_takes (suc n) s' (counts.write_keeps address length s ∙ e))

    open_and_write-handles :
        (n : ℕ) (s : S) → handles s ≡ suc n → handles (open_and_write f address length path s).1 ≡ n
    unfolding open_and_write
    open_and_write-handles n s e =
        let (status, s') = f.open_file path s in
        if_split {A = ℕ × S} (λ r. handles r.1 ≡ n) (efi_error status)
          (λ bad. counts.close_root_takes n s' (counts.file_adds path s ∙ rw (bad, e) refl))
          (λ ok. write_and_close-handles n s' (counts.file_adds path s ∙ rw (ok, e) refl))

    in_volume-handles : (s : S) → handles (in_volume f address length path s).1 ≡ handles s
    unfolding in_volume
    in_volume-handles s =
        let (status, s') = f.open_volume s in
        if_split {A = ℕ × S} (λ r. handles r.1 ≡ handles s) (efi_error status)
          (λ bad. counts.volume_adds s ∙ rw bad refl)
          (λ ok. open_and_write-handles (handles s) s' (counts.volume_adds s ∙ rw ok refl))

    -- On every path, whichever call fails: after a dump as many handles are open as before.
    pub read_memory_and_write_to_file-handles :
        (s : S) → handles (read_memory_and_write_to_file f address length path s).1 ≡ handles s
    unfolding read_memory_and_write_to_file
    read_memory_and_write_to_file-handles s =
        let (status, s') = f.locate_protocol s in
        if_split {A = ℕ × S} (λ r. handles r.1 ≡ handles s) (efi_error status)
          (λ bad. counts.locate_keeps s) (λ ok. in_volume-handles s' ∙ counts.locate_keeps s)
