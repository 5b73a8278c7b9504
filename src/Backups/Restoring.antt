-- ===== src/Backups/Restoring.antt =====
-- What a backup of cli/pkg/backup/backup.go gives back.
use passbubble.Prelude.{
  select_where, ℕ, suc, ◌+◌, true, false, ◌||◌, Option, some, List, [], ◌∷◌, length, map, ◌≡◌, refl,
  arith, All, Bool-cases, Option-cases, inl, inr, ◌⊎◌,
}
use passbubble.Texts.{text_eq_refl, Text}
use passbubble.Backups.{
  BackedUp, File, Source, Disk, Files, Created, failed, written, has_data, read_entries, put_file,
  write_private, create_from, create_found, create, read, Target, data_or_blank, restored_entry,
  restore_from, restore,
}
use passbubble.Sealing.{drop_stray_totp_secret}
use passbubble.Backups.Writing.{read_entries-saved, read_entries-size, read_entries-skipped}

restore_from-all :
    (target : Target) (n : ℕ) (es : List BackedUp)
    → ((i : ℕ) → target i ≡ true)
    → restore_from target n es
      ≡ record { created = map restored_entry es; restored = length es; failed_names = [] }
unfolding restore_from
restore_from-all target n [] h = refl
restore_from-all target n (e ∷ es) h = ground (arith, h n, restore_from-all target (suc n) es h)

module _ (encode : File → Option Text) (decode : Text → Option File) (target : Target) where
  -- What a backup that was written is worth: a file holds the entries that could be read, and the
  -- target is given each of them once.
  pub record IsBackup (src : Source) (listed : List (ℕ × Text)) (path server email : Text)
      (saved total : ℕ) (skipped : List ℕ) (files files' : Files) : Type 0 where
    pub file : File
    pub content : Text
    pub saved_entries :
        map some file.entries ≡ select_where has_data (map (λ l. src.get_entry l.0) listed)
    pub account : (file.server ≡ server) × (file.email ≡ email)
    pub placed : files' ≡ put_file path content files
    pub reads : read encode decode files' path ≡ some file
    pub gives_back : restore target file ≡ record {
      created =
          map
            (λ (e : BackedUp). record e {
              content = some (drop_stray_totp_secret (data_or_blank e.content));
            })
            file.entries;
      restored = saved;
      failed_names = [];
    }
    pub complete : total ≡ length listed
    pub counted : saved + length skipped ≡ total
    pub unread : All (λ id. has_data (src.get_entry id) ≡ false) skipped

  -- What Create may leave: where it fails, all files as they were.
  abbrev pub Leaves :
      Source → List (ℕ × Text) → Text → Text → Text → Files → Files → Created → Type 0
  Leaves src listed path server email files files' failed = files' ≡ files
  Leaves src listed path server email files files' (written saved total skipped) =
      IsBackup src listed path server email saved total skipped files files'

  module _ (decode-encode : (f : File) (t : Text) → encode f ≡ some t → decode t ≡ some f)
      (all : (i : ℕ) → target i ≡ true) where
    placed_reads :
        (path content : Text) (file : File) (files : Files)
        → encode file ≡ some content
        → read encode decode (put_file path content files) path ≡ some file
    unfolding read put_file
    placed_reads path content file files h =
        ground (arith, text_eq_refl path, decode-encode file content h)

    placed-Leaves :
        (src : Source) (listed : List (ℕ × Text)) (path server email content : Text) (files : Files)
        → encode record { server = server; email = email; entries = (read_entries src listed).0 }
          ≡ some content
        → Leaves src listed path server email files (put_file path content files) (
            written
              (length (read_entries src listed).0)
              (length listed)
              (read_entries src listed).1)
    unfolding restore restored_entry
    placed-Leaves src listed path server email content files h = record {
      file = record { server = server; email = email; entries = (read_entries src listed).0 };
      content = content;
      saved_entries = read_entries-saved src listed;
      account = (refl, refl);
      placed = refl;
      reads = placed_reads path content _ files h;
      gives_back = restore_from-all target 0 (read_entries src listed).0 all;
      complete = refl;
      counted = read_entries-size src listed;
      unread = read_entries-skipped src listed;
    }

    -- Create either fails or puts the file.
    create_from_cases :
        (disk : Disk) (path server email : Text) (total : ℕ) (entries : List BackedUp)
        (skipped : List ℕ) (files : Files)
        → (create_from encode decode disk path server email total entries skipped files
            ≡ (files, failed))
          ⊎ ((content : Text) × ((encode
                    record { server = server; email = email; entries = entries }
                  ≡ some content)
                × (create_from encode decode disk path server email total entries skipped files
                    ≡ (put_file path content files, written (length entries) total skipped))))
    unfolding create_from write_private
    create_from_cases disk path server email total entries skipped files =
        elim (Option-cases (encode record { server = server; email = email; entries = entries })) [
          | inl e ↦ inl (ground (arith, e))
          | inr (content, e) ↦
              elim (Bool-cases (
                disk.create_temp_fails || disk.write_fails || disk.close_fails
                || disk.rename_fails)) [
                  | inl f ↦ inl (ground (arith, e, f))
                  | inr f ↦ inr (content, (e, ground (arith, e, f)))
                ]
        ]

    listed-Leaves :
        (src : Source) (listed : List (ℕ × Text)) (disk : Disk) (path server email : Text)
        (files : Files) (found : Option (List (ℕ × Text)))
        → found ≡ some listed
        → Leaves src listed path server email files
            (create_found encode decode src disk path server email found files).0
            (create_found encode decode src disk path server email found files).1
    unfolding create_found
    listed-Leaves src listed disk path server email files found h =
        elim (create_from_cases disk path server email (length listed) (read_entries src listed).0
          (read_entries src listed).1 files) [
            | inl e ↦ rw (h, create_found, e) refl
            | inr (content, (encoded, e)) ↦
                rw (h, create_found, e)
                  (placed-Leaves src listed path server email content files encoded)
          ]

    -- If JSON reads back what it wrote and every creation in the target comes through, then a
    -- backup of the listed entries either fails and leaves all files as they were, or replaces
    -- the one file by one that reads back, which names the server and the email and holds exactly
    -- the listed entries that can be read and have data, as they were read, in their order, and
    -- from which Restore creates each of them once, without a stray TOTP secret; the entries
    -- saved and those reported as skipped, none of which could be read, are together as many as
    -- are listed.
    pub create-Leaves :
        (src : Source) (listed : List (ℕ × Text)) (disk : Disk) (path server email : Text)
        (files : Files)
        → src.list_entries ≡ some listed
        → Leaves src listed path server email files
            (create encode decode src disk path server email files).0
            (create encode decode src disk path server email files).1
    unfolding create
    create-Leaves src listed disk path server email files h =
        listed-Leaves src listed disk path server email files src.list_entries h
