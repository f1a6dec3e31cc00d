-- ===== src/Storage/CertCache/Refines.antt =====
-- internal/acmecache/cache.go: the cache behaves as a map from keys to values, which forgets the order
-- of the rows.
use curio_core.Storage.CertCache.{
  cert_at-delete, cert_at-put, cache_miss, cert_at, hit, World, get_failed, Cached, Env, Certs,
  get_cert, put_cert, delete_cert,
}
use curio_core.Base.{
  subst, ◌∙◌, ◌≡◌, bytes_eq, if◌then◌else◌, ◌∷◌, Bytes, List, ℕ, suc, ap, false, true, refl, [],
  Bool,
}

-- autocert.Cache
pub data CacheOp : Type 0 where
  gets : Bytes → CacheOp
  puts : Bytes → Bytes → CacheOp
  deletes : Bytes → CacheOp

pub data Answer : Type 0 where
  told : Cached → Answer
  done : Bool → Answer

-- one call of the cache
abbrev pub step : Env → CacheOp → World Certs → Answer × World Certs
step env (gets key) w = let (c, w') = get_cert env key w in (told c, w')
step env (puts key val) w = let (ok, w') = put_cert env key val w in (done ok, w')
step env (deletes key) w = let (ok, w') = delete_cert env key w in (done ok, w')

abbrev pub run : Env → List CacheOp → World Certs → List Answer × World Certs
run env [] w = ([], w)
run env (op ∷ ops) w =
    let (a, w') = step env op w in let (answers, w'') = run env ops w' in (a ∷ answers, w'')

-- the map: a hit or a miss for each key
abbrev pub CacheMap : Type 0
CacheMap = Bytes → Cached

abbrev pub with_key : Bytes → Cached → CacheMap → CacheMap
with_key key c m other = if bytes_eq key other then c else m other

-- one call of the map; a call that fails changes nothing
abbrev pub map_step : Bool → CacheOp → CacheMap → Answer × CacheMap
map_step true (gets key) m = (told get_failed, m)
map_step true (puts key val) m = (done false, m)
map_step true (deletes key) m = (done false, m)
map_step false (gets key) m = (told (m key), m)
map_step false (puts key val) m = (done true, with_key key (hit val) m)
map_step false (deletes key) m = (done true, with_key key cache_miss m)

abbrev pub map_run : Env → ℕ → List CacheOp → CacheMap → List Answer × CacheMap
map_run env n [] m = ([], m)
map_run env n (op ∷ ops) m =
    let (a, m') = map_step (env.fault n) op m in
    let (answers, m'') = map_run env (suc n) ops m' in (a ∷ answers, m'')

-- the table holds the map
abbrev pub Holds : Certs → CacheMap → Type 0
Holds rows m = (key : Bytes) → cert_at key rows ≡ m key

-- the answer and the state of one call
abbrev StepHolds : Env → CacheOp → World Certs → Bool → CacheMap → Type 0
StepHolds env op w failed m =
    ((step env op w).0 ≡ (map_step failed op m).0)
    × Holds (step env op w).1.store (map_step failed op m).1
    × ((step env op w).1.calls ≡ suc w.calls)

step-Holds :
    (env : Env) (op : CacheOp) (w : World Certs) (m : CacheMap) (failed : Bool)
    → env.fault w.calls ≡ failed
    → Holds w.store m
    → StepHolds env op w failed m
unfolding get_cert put_cert delete_cert
step-Holds env (gets key) w m true f h = rw f (refl, h, refl)
step-Holds env (puts key val) w m true f h = rw f (refl, h, refl)
step-Holds env (deletes key) w m true f h = rw f (refl, h, refl)
step-Holds env (gets key) w m false f h = rw f (ap told (h key), h, refl)
step-Holds env (puts key val) w m false f h = rw f (
  refl,
  λ other.
      cert_at-put key val other w.store
      ∙ ap (λ c. if bytes_eq key other then hit val else c) (h other),
  refl,
)
step-Holds env (deletes key) w m false f h = rw f (
  refl,
  λ other.
      cert_at-delete key other w.store
      ∙ ap (λ c. if bytes_eq key other then cache_miss else c) (h other),
  refl,
)

-- Whatever calls are made and whichever of them fail, the cache gives the answers that a map gives
-- which holds what the table held, and the table holds that map in the end.
pub run-Holds :
    (env : Env) (ops : List CacheOp) (w : World Certs) (m : CacheMap)
    → Holds w.store m
    → ((run env ops w).0 ≡ (map_run env w.calls ops m).0)
      × Holds (run env ops w).1.store (map_run env w.calls ops m).1
run-Holds env [] w m h = (refl, h)
run-Holds env (op ∷ ops) w m h =
    let (same, held, next) = step-Holds env op w m (env.fault w.calls) refl h in
    let (rest, all) =
      run-Holds env ops (step env op w).1 (map_step (env.fault w.calls) op m).1 held in
    let m' = (map_step (env.fault w.calls) op m).1 in
    subst
      (λ n.
        ((run env (op ∷ ops) w).0
          ≡ (map_step (env.fault w.calls) op m).0 ∷ (map_run env n ops m').0)
        × Holds (run env (op ∷ ops) w).1.store (map_run env n ops m').1)
      next
      (
        ap (λ a. a ∷ (run env ops (step env op w).1).0) same
            ∙ ap (λ answers. (map_step (env.fault w.calls) op m).0 ∷ answers) rest,
        all,
      )
