-- ===== src/Links/Service/Failure.antt =====
-- What a `create_link` that raises leaves behind (backend/app/services/link_service.py).
use nova_ve.Prelude.Dict.{get-put}
use nova_ve.Prelude.{
  ◌≡◌, refl, sym, ap, ◌∙◌, Option, none, some, List, inl, inr, Text, text_eq, text_eq_iff,
  Bool-cases,
}
use nova_ve.Lab.{Endpoint, Lab}
use nova_ve.LabPath.{normalize_relative_lab_path}
use nova_ve.RuntimeMutex.{MutexKey}
use nova_ve.Ipam.Store.{LabStore, read_lab, write_lab}
use nova_ve.Links.Keys.{EndpointKey, normalize_endpoint}
use nova_ve.Links.Create.{LinkError, Result, ok, err, Created, plan_create}
use nova_ve.Links.Cache.{CacheEntry, Cache, cache_get}
use nova_ve.Links.Service.{Stamp, World, Environment, Stacked, all_entered, contended, save}
use nova_ve.Links.Service.CreateLink.{
  create_attached, create_planned, create_read, create_link_locked, under_mutexes,
  create_normalized, create_looked_up, create_at, create_link,
}

-- The same lab files, the same events and subscribers, and the same replies to replay.
pub record Unchanged (w u : World) : Type 0 where
  pub labs : (q : Text) → read_lab q u.labs ≡ read_lab q w.labs
  pub hub : u.hub ≡ w.hub
  pub cache : u.cache ≡ w.cache

nothing : (w : World) → Unchanged w w
nothing w = record { labs = λ q. refl; hub = refl; cache = refl }

-- To write a file and then what it held before is to leave every file as it was.
write_back :
    (path : Text) (lab original : Lab) (store : LabStore) (q : Text)
    → read_lab path store ≡ some original
    → read_lab q (write_lab path original (write_lab path lab store)) ≡ read_lab q store
write_back path lab original store q h =
    get-put text_eq text_eq_iff path q original (write_lab path lab store)
    ∙ elim (Bool-cases (text_eq path q)) [
      | inl e ↦ rw e (sym h ∙ ap (λ p. read_lab p store) ((text_eq_iff path q).0 e))
      | inr e ↦ rw e (get-put text_eq text_eq_iff path q lab store ∙ rw e refl)
    ]

module _ (env : Environment) (w : World) (path : Text) (style key : Option Text)
    (e : LinkError) where
  attached-err :
      (original : Lab) (c : Created) (stamps : Option (List Stamp))
      → read_lab path w.labs ≡ some original
      → (create_attached env (save path c.lab w) path key original c stamps).0 ≡ err e
      → Unchanged w (create_attached env (save path c.lab w) path key original c stamps).1
  unfolding save
  attached-err original c none h failed = record {
    labs = λ q. write_back path c.lab original w.labs q h;
    hub = refl;
    cache = refl;
  }
  attached-err original c (some stamps) h failed = cc

  planned-err :
      (original : Lab) (plan : Result Created)
      → read_lab path w.labs ≡ some original
      → (create_planned env w path key original plan).0 ≡ err e
      → Unchanged w (create_planned env w path key original plan).1
  planned-err original (err x) h failed = nothing w
  planned-err original (ok c) h failed = attached-err original c _ h failed

  read-err :
      (a b : EndpointKey) (o : Option Lab)
      → read_lab path w.labs ≡ o
      → (create_read env w path a b style key o).0 ≡ err e
      → Unchanged w (create_read env w path a b style key o).1
  read-err a b none h failed = nothing w
  read-err a b (some lab) h failed = planned-err lab (plan_create lab a b style) h failed

under_mutexes-err :
    {A : Type 0} (w : World) (keys : List MutexKey) (s : Stacked) (body : World → Result A × World)
    (e : LinkError)
    → ((v : World) → (body v).0 ≡ err e → Unchanged v (body v).1)
    → (under_mutexes w keys s body).0 ≡ err e
    → Unchanged w (under_mutexes w keys s body).1
under_mutexes-err w keys (contended r) body e each failed = record {
  labs = λ q. refl;
  hub = refl;
  cache = refl;
}
under_mutexes-err w keys (all_entered r) body e each failed =
    let u = each (record w { mutex = r }) failed in
    record { labs = u.labs; hub = u.hub; cache = u.cache }

locked-err :
    (env : Environment) (w : World) (path : Text) (a b : EndpointKey) (style key : Option Text)
    (e : LinkError)
    → (create_link_locked env w path a b style key).0 ≡ err e
    → Unchanged w (create_link_locked env w path a b style key).1
unfolding create_link_locked
locked-err env w path a b style key e failed =
    read-err env w path style key e a b (read_lab path w.labs) refl failed

normalized-err :
    (env : Environment) (w : World) (path : Text) (a b : Option EndpointKey)
    (style key : Option Text) (e : LinkError)
    → (create_normalized env w path a b style key).0 ≡ err e
    → Unchanged w (create_normalized env w path a b style key).1
normalized-err env w path (some a) (some b) style key e failed =
    under_mutexes-err w _ _ (λ v. create_link_locked env v path a b style key) e
      (λ v. locked-err env v path a b style key e) failed
normalized-err env w path none b style key e failed = nothing w
normalized-err env w path (some a) none style key e failed = nothing w

looked_up-err :
    (env : Environment) (w : World) (path : Text) (from to : Endpoint) (style key : Option Text)
    (e : LinkError) (found : Option CacheEntry × Cache)
    → (create_looked_up env w path from to style key found).0 ≡ err e
    → Unchanged w (create_looked_up env w path from to style key found).1
looked_up-err env w path from to style key e (some x, cache) failed = cc
looked_up-err env w path from to style key e (none, cache) failed =
    normalized-err env w path (normalize_endpoint from) (normalize_endpoint to) style key e failed

at-err :
    (env : Environment) (w : World) (from to : Endpoint) (style key : Option Text) (e : LinkError)
    (path : Option Text)
    → (create_at env w from to style key path).0 ≡ err e
    → Unchanged w (create_at env w from to style key path).1
at-err env w from to style key e none failed = nothing w
at-err env w from to style key e (some path) failed =
    looked_up-err env w path from to style key e (cache_get path key w.cache) failed

-- A `create_link` that raises, wherever it does and after the hot-attach too, leaves every lab
-- file with the content that it had, publishes nothing, changes no subscriber, and keeps the
-- idempotency cache as it was.
pub create_link-err :
    (env : Environment) (w : World) (lab_path : Text) (from to : Endpoint) (style key : Option Text)
    (e : LinkError)
    → (create_link env w lab_path from to style key).0 ≡ err e
    → Unchanged w (create_link env w lab_path from to style key).1
unfolding create_link
create_link-err env w lab_path from to style key e failed =
    at-err env w from to style key e (normalize_relative_lab_path lab_path) failed
