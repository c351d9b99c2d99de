-- ===== src/Db/Integrity/Calls.antt =====
-- Which actions keep the database whole: each call of the library, and what is composed of them.
use wacs.Prelude.{
  ℕ, ℤ, ◌≡◌, ◌≢◌, Bool, true, false, Option, none, some, Bool-cases, inl, inr, zero, suc, eq_ℤ,
  if◌then◌else◌,
}
use wacs.Layout.{Bytes}
use wacs.Lmdb.{Lmdb, Op, next, Item, mdb_success}
use wacs.Lmdb.Shelf.{Shelf, items, at_start}
use wacs.Lmdb.Contract.{Contract}
use wacs.Db.Monad.{
  M, World, env_create, env_open, env_close, env_info, env_set_mapsize, txn_begin, txn_commit,
  txn_abort, dbi_open, dbi_close, put, del, cursor_open, cursor_get, cursor_del, clear_env, pure,
  ◌>>=◌, ◌>>◌,
}
use wacs.Db.Query.{fails}
use wacs.Db.Loop.{Next, stop, more, cursor_loop}
use wacs.Db.Transaction.{fails-eq-true, fails-eq-false}
use wacs.Db.Integrity.Items.{
  IsStored, Holds, Holds-at_start, insert-Database, erase-Database, Holds-remove_here, Holds-go_to,
}

-- A call that succeeds does its operation, and one that fails changes nothing.
either :
    (r : ℤ) (v u new : Shelf)
    → (r ≡ mdb_success → v ≡ new)
    → (r ≢ mdb_success → v ≡ u)
    → Holds new
    → Holds u
    → Holds v
either r v u new good bad hn hu = elim (Bool-cases (fails r)) [
  | inl f ↦ rw (bad (fails-eq-true r f)) hu
  | inr s ↦ rw (good (fails-eq-false r s)) hn
]

committed_twice : (v : Shelf) → Holds v → Holds (at_start v.committed v.committed)
committed_twice v h = Holds-at_start v.committed v.committed h.below h.below

module _ {L : Lmdb} (C : Contract L) where
  -- From any caller whose database is whole, the action leaves it whole.
  pub record Keeps {A : Type 0} (m : M L A) : Type 0 where
    pub keeps : (w : World L) → Holds (C.view w.lib) → Holds (C.view (m w).1.lib)

module _ {L : Lmdb} {C : Contract L} where
  pub pure-Keeps : {A : Type 0} (a : A) → Keeps C (pure {S = World L} a)
  pure-Keeps a = record { keeps = λ w h. h }

  pub bind-Keeps :
      {A B : Type 0} {m : M L A} {f : A → M L B}
      → Keeps C m
      → ((a : A) → Keeps C (f a))
      → Keeps C (m >>= f)
  bind-Keeps {A} {B} {m} {f} k l = record { keeps = λ w h. (l (m w).0).keeps (m w).1 (k.keeps w h) }

  pub then-Keeps : {A B : Type 0} {m : M L A} {n : M L B} → Keeps C m → Keeps C n → Keeps C (m >> n)
  then-Keeps {A} {B} {m} {n} k l = record { keeps = λ w h. l.keeps (m w).1 (k.keeps w h) }

  pub if-Keeps :
      {A : Type 0} (b : Bool) {m n : M L A} → Keeps C m → Keeps C n → Keeps C (if b then m else n)
  if-Keeps true k l = k
  if-Keeps false k l = l

  -- A call, and what follows when it fails and when it succeeds.
  pub check-Keeps :
      {A : Type 0} {m : M L ℤ} {f g : ℤ → M L A}
      → Keeps C m
      → ((r : ℤ) → Keeps C (f r))
      → ((r : ℤ) → Keeps C (g r))
      → Keeps C (m >>= (λ r. if fails r then f r else g r))
  check-Keeps k l n = bind-Keeps k (λ r. if-Keeps (fails r) (l r) (n r))

  elim_bool-Keeps :
      {A : Type 0} (b : Bool) {m n : M L A}
      → Keeps C m
      → Keeps C n
      → Keeps C (elim b [ true ↦ m | false ↦ n ])
  elim_bool-Keeps true k l = k
  elim_bool-Keeps false k l = l

  pub elim_next-Keeps :
      {A E : Type 0} (r : Next E) {f g : E → M L A}
      → ((e : E) → Keeps C (f e))
      → ((e : E) → Keeps C (g e))
      → Keeps C (elim r [ stop e ↦ f e | more e ↦ g e ])
  elim_next-Keeps (stop e) k l = k e
  elim_next-Keeps (more e) k l = l e

  pub elim_option-Keeps :
      {A E : Type 0} (o : Option E) {n : M L A} {f : E → M L A}
      → Keeps C n
      → ((e : E) → Keeps C (f e))
      → Keeps C (elim o [ none ↦ n | some e ↦ f e ])
  elim_option-Keeps none k l = k
  elim_option-Keeps (some e) k l = l e

  pub create-Keeps : Keeps C env_create
  unfolding env_create
  create-Keeps = record { keeps = λ w h. rw (C.create_view w.lib) h }

  pub env_open-Keeps : Keeps C env_open
  unfolding env_open
  env_open-Keeps = record {
    keeps = λ w h. rw (C.env_open_view w.db.env w.db.path w.db.flags w.db.mode w.lib) h;
  }

  pub close-Keeps : Keeps C env_close
  unfolding env_close
  close-Keeps = record { keeps = λ w h. rw (C.close_view w.db.env w.lib) h }

  pub info-Keeps : Keeps C env_info
  unfolding env_info
  info-Keeps = record { keeps = λ w h. rw (C.info_view w.db.env w.lib) h }

  pub mapsize-Keeps : (n : ℕ) → Keeps C (env_set_mapsize n)
  unfolding env_set_mapsize
  mapsize-Keeps n = record { keeps = λ w h. rw (C.mapsize_view w.db.env n w.lib) h }

  pub clear-Keeps : Keeps C clear_env
  unfolding clear_env
  clear-Keeps = record { keeps = λ w h. h }

  pub dbi_open-Keeps : Keeps C dbi_open
  unfolding dbi_open
  dbi_open-Keeps = record { keeps = λ w h. rw (C.dbi_open_view w.db.txn w.lib) h }

  pub dbi_close-Keeps : Keeps C dbi_close
  unfolding dbi_close
  dbi_close-Keeps = record { keeps = λ w h. rw (C.dbi_close_view w.db.env w.db.dbi w.lib) h }

  pub begin-Keeps : Keeps C txn_begin
  unfolding txn_begin
  begin-Keeps = record {
    keeps = λ w h.
        either (L.txn_begin w.db.env w.lib).0 _ _ _ (C.begin_view w.db.env w.lib)
          (C.begin_failed_view w.db.env w.lib) (committed_twice _ h) h;
  }

  pub commit-Keeps : Keeps C txn_commit
  unfolding txn_commit
  commit-Keeps = record {
    keeps = λ w h.
        let v = C.view w.lib in
        either (L.txn_commit w.db.txn w.lib).0 _ _ _ (C.commit_view w.db.txn w.lib)
          (C.commit_failed_view w.db.txn w.lib)
          (Holds-at_start (items v) (items v) h.inside h.inside) (committed_twice v h);
  }

  pub abort-Keeps : Keeps C txn_abort
  unfolding txn_abort
  abort-Keeps = record { keeps = λ w h. rw (C.abort_view w.db.txn w.lib) (committed_twice _ h) }

  pub put-Keeps : (k v : Bytes) → IsStored (k, v) → Keeps C (put k v)
  unfolding put
  put-Keeps k v p = record {
    keeps = λ w h.
        either (L.put w.db.txn w.db.dbi k v w.lib).0 _ _ _ (C.put_view w.db.txn w.db.dbi k v w.lib)
          (C.put_failed_view w.db.txn w.db.dbi k v w.lib)
          (Holds-at_start _ _ h.below (insert-Database (k, v) _ p h.inside)) h;
  }

  pub del-Keeps : (k : Bytes) → Keeps C (del k)
  unfolding del
  del-Keeps k = record {
    keeps = λ w h.
        either (L.del w.db.txn w.db.dbi k w.lib).0 _ _ _ (C.del_view w.db.txn w.db.dbi k w.lib)
          (C.del_failed_view w.db.txn w.db.dbi k w.lib)
          (Holds-at_start _ _ h.below (erase-Database k _ h.inside)) h;
  }

  pub cursor_open-Keeps : Keeps C cursor_open
  unfolding cursor_open
  cursor_open-Keeps = record { keeps = λ w h. rw (C.open_view w.db.txn w.db.dbi w.lib) h }

  pub cursor_get-Keeps : (c : ℕ) (o : Op) → Keeps C (cursor_get c o)
  unfolding cursor_get
  cursor_get-Keeps c o = record { keeps = λ w h. rw (C.get_view c o w.lib) (Holds-go_to o _ h) }

  pub cursor_del-Keeps : (c : ℕ) → Keeps C (cursor_del c)
  unfolding cursor_del
  cursor_del-Keeps c = record {
    keeps = λ w h.
        either (L.cursor_del c w.lib).0 _ _ _ (C.cursor_del_view c w.lib)
          (C.cursor_del_failed_view c w.lib) (Holds-remove_here _ h) h;
  }

  -- A loop keeps what its body keeps, on any fuel.
  pub loop-Keeps :
      {E : Type 0} (c : ℕ) (body : Item → E → M L (Next E))
      → ((i : Item) (e : E) → Keeps C (body i e))
      → (fuel : ℕ) (i : Item) (e : E) → Keeps C (cursor_loop c body fuel i e)
  unfolding cursor_loop
  loop-Keeps c body k zero i e = pure-Keeps none
  loop-Keeps c body k (suc fuel) i e = bind-Keeps (k i e) (λ r.
      elim_next-Keeps r (λ e'. pure-Keeps (some e'))
        (λ e'. bind-Keeps (cursor_get-Keeps c next) (λ x.
          elim_bool-Keeps (eq_ℤ x.0 mdb_success) (loop-Keeps c body k fuel x.1 e')
            (pure-Keeps (some e')))))
