-- ===== src/Cache/Memory.antt =====
-- A cache with no clock: a function from keys to values, whose entries do not expire.
use pdf_search.Prelude.{
  ◌≡◌, ◌≢◌, String, Option, none, some, true, false, str_eq, eq_iff, eq_refl, if◌then◌else◌,
  is_some, not, arith,
}
use pdf_search.Cache.{CacheApi}

abbrev pub Memory : Type 0 → Type 0
Memory V = String → Option V

module _ {V : Type 0} where
  abbrev pub put : Memory V → String → Option V → Memory V
  put m k v j = if str_eq k j then v else m j

  abbrev pub add_missing : Memory V → String → V → Memory V
  add_missing m k v = elim (m k) [ none ↦ put m k (some v) | some w ↦ m ]

  pub put_self : (m : Memory V) (k : String) (v : Option V) → put m k v k ≡ v
  put_self m k v = rw (eq_refl k)

  pub put_ne : (m : Memory V) (k j : String) (v : Option V) → k ≢ j → put m k v j ≡ m j
  put_ne m k j v h = ground (arith, eq_iff k j)

  pub absent_added : (m : Memory V) (k : String) → m k ≡ none → not (is_some (m k)) ≡ true
  absent_added m k e = rw e

  pub present_added :
      (m : Memory V) (k : String) (v : V) → m k ≡ some v → not (is_some (m k)) ≡ false
  present_added m k v e = rw e

  pub add_missing_self :
      (m : Memory V) (k : String) (v : V) → m k ≡ none → add_missing m k v k ≡ some v
  add_missing_self m k v e = rw (e, add_missing) (put_self m k (some v))

  pub add_missing_present :
      (m : Memory V) (k : String) (v w : V) → m k ≡ some w → add_missing m k v ≡ m
  add_missing_present m k v w e = rw (e, add_missing)

  abbrev pub memory : CacheApi V
  memory = record {
    State = Memory V;
    get = λ m k. m k;
    add = λ m k v t. add_missing m k v;
    added = λ m k. not (is_some (m k));
    set = λ m k v t. put m k (some v);
    delete = λ m k. put m k none;
    get-set_self = λ m k v t h. put_self m k (some v);
    get-set_forever = λ m k v. put_self m k (some v);
    get-set_ne = λ m k j v t h. put_ne m k j (some v) h;
    get-delete_self = λ m k. put_self m k none;
    get-delete_ne = λ m k j h. put_ne m k j none h;
    added_absent = absent_added;
    added_present = present_added;
    get-add_absent = λ m k v t h e. add_missing_self m k v e;
    add_present = λ m k v w t e. add_missing_present m k v w e;
  }
