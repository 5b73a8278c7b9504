-- ===== src/Entries/Creation.antt =====
-- What CreateEntry leaves alone: every entry but the new one.
use passbubble.Prelude.{
  ℕ, Option, none, some, ◌≡◌, ◌≢◌, refl, sym, inl, inr, arith, ◌==◌, find-append_miss, Option-cases,
}
use passbubble.Store.{World, Db, Claims, of_user, Returns, Returns-bind, Returns-some}
use passbubble.Entries.Untouched.{
  Untouched, Untouched-refl, Untouched-trans, or_keep-Untouched, insert_keys-Untouched,
}
use passbubble.Entries.{CreateEntryRequest, insert_keys, insert_entry, grant_owner, create_entry}

insert_entry-Untouched :
    (e : ℕ) (w : World) (caller : Claims) (req : CreateEntryRequest) (id : ℕ) (db : Db)
    → id ≢ e
    → Returns (Untouched e db) (insert_entry w 0 caller req id db)
unfolding insert_entry
insert_entry-Untouched e w caller req id db fresh = Returns-bind _ _ λ _ _.
    Returns-bind _ _ λ folder _. Returns-bind _ _ λ _ _. Returns-bind _ _ λ payload _.
      Returns-bind _ _ λ nonce _. Returns-bind _ _ λ created _. Returns-bind _ _ λ updated _.
        Returns-some (record {
          entry = find-append_miss (λ r. r.id == e) db.entries _ (ground arith);
          key = λ u. refl;
          permission = λ u. refl;
        })

grant_owner-Untouched :
    (e : ℕ) (w : World) (n entry user : ℕ) (db : Db)
    → entry ≢ e
    → Untouched e db (grant_owner w n entry user db)
unfolding grant_owner
grant_owner-Untouched e w n entry user db ne = or_keep-Untouched e db _ (
    Returns-bind _ _ λ _ _. Returns-bind _ _ λ _ _. Returns-some (record {
      entry = refl;
      key = λ u. refl;
      permission = λ u. find-append_miss (of_user e u) db.entry_permissions _ (ground arith);
    }))

created-Untouched :
    (e : ℕ) (w : World) (caller : Claims) (req : CreateEntryRequest) (id : ℕ) (db db₁ : Db)
    → id ≢ e
    → insert_entry w 0 caller req id db ≡ some db₁
    → Untouched e db (grant_owner w 1 id caller.user_id (insert_keys w 2 id req.entry_keys db₁))
created-Untouched e w caller req id db db₁ fresh h =
    Untouched-trans ((insert_entry-Untouched e w caller req id db fresh).at db₁ h) (
      Untouched-trans (insert_keys-Untouched e w 2 id req.entry_keys db₁ (λ p. fresh (sym p)))
        (grant_owner-Untouched e w 1 id caller.user_id _ fresh))

pub create_entry-Untouched :
    (e : ℕ) (w : World) (caller : Claims) (req : Option CreateEntryRequest) (db : Db)
    → w.uuid 0 ≢ e
    → Untouched e db (create_entry w caller req db).0
unfolding create_entry
create_entry-Untouched e w caller none db fresh = Untouched-refl e db
create_entry-Untouched e w caller (some req) db fresh =
    elim (Option-cases (insert_entry w 0 caller req (w.uuid 0) db)) [
      | inl e₁ ↦ ground (arith, Untouched-refl e db)
      | inr (db₁, h₁) ↦
          ground (arith, Untouched-refl e db, created-Untouched e w caller req (w.uuid 0) db db₁)
    ]
