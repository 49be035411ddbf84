-- ===== src/Lifecycle.antt =====
-- prisma/schema.prisma: the abstract life cycle of a service request, which the operations that
-- write the table follow, and what they may change of a row.
use mathlib.Core.List.{Memᴰ}
use eps_dapp.Base.{
  ◌+◌, ◌≤◌, ◌≡◌, refl, ap, sym, subst, ◌∙◌, true, false, Bool, none, some, List, [], ◌∷◌, ◌++◌,
  arith, Text, Bool-cases, inl, inr, find, find-mem, any, count, update_where, eq-of_count_one,
  count-pos-of_mem, text_eq_refl, text_eq→eq,
}
use eps_dapp.Db.{Db, ServiceRequest, ServiceStatus}
use eps_dapp.Failure.{has_request_id}
use eps_dapp.Hedera.{without_proofs}
use eps_dapp.Worker.{is_claimable}

-- The steps of the life cycle: a request is taken up, and then delivered or given up.
pub data Step : ServiceStatus → ServiceStatus → Type 0 where
  take_up : Step ServiceStatus.staged ServiceStatus.in_progress
  deliver : Step ServiceStatus.in_progress ServiceStatus.confirmed
  give_up : Step ServiceStatus.in_progress ServiceStatus.failed

pub data Reaches : ServiceStatus → ServiceStatus → Type 0 where
  here : {s : ServiceStatus} → Reaches s s
  onward : {s t u : ServiceStatus} → Step s t → Reaches t u → Reaches s u

pub Reaches-trans : {s t u : ServiceStatus} → Reaches s t → Reaches t u → Reaches s u
Reaches-trans here r = r
Reaches-trans (onward step q) r = onward step (Reaches-trans q r)

-- A request that no worker claims is at its end: it reaches no other status.
pub final-Reaches : {s t : ServiceStatus} → is_claimable s ≡ false → Reaches s t → t ≡ s
final-Reaches h here = refl
final-Reaches h (onward take_up r) = absurd (ground arith)
final-Reaches h (onward deliver r) = absurd (ground arith)
final-Reaches h (onward give_up r) = absurd (ground arith)

-- What was asked for: a request but for the columns that a delivery writes.
abbrev pub terms : ServiceRequest → ServiceRequest
terms r = record (without_proofs r) {
  status = ServiceStatus.staged;
  tx_signature = none;
  slot = none;
  block_time = none;
  failure_reason = none;
}

-- A request goes on: it is the same request, its status is reached, and a signature that is on
-- record stays.
pub record Advances (r s : ServiceRequest) : Type 0 where
  pub same_terms : terms s ≡ terms r
  pub reached : Reaches r.status s.status
  pub keeps_signature :
      (signature : Text) → r.tx_signature ≡ some signature → s.tx_signature ≡ some signature

pub Advances-refl : (r : ServiceRequest) → Advances r r
Advances-refl r = record { same_terms = refl; reached = here; keeps_signature = λ signature e. e }

pub Advances-trans : {r s t : ServiceRequest} → Advances r s → Advances s t → Advances r t
Advances-trans a b = record {
  same_terms = b.same_terms ∙ a.same_terms;
  reached = Reaches-trans a.reached b.reached;
  keeps_signature = λ signature e. b.keeps_signature signature (a.keeps_signature signature e);
}

-- Request by request, each one goes on, and there is no other.
pub data Follows : List ServiceRequest → List ServiceRequest → Type 0 where
  none_left : Follows [] []
  one_more :
      {r s : ServiceRequest} {rows later : List ServiceRequest}
      → Advances r s
      → Follows rows later
      → Follows (r ∷ rows) (s ∷ later)

pub Follows-refl : (rows : List ServiceRequest) → Follows rows rows
Follows-refl [] = none_left
Follows-refl (r ∷ rows) = one_more (Advances-refl r) (Follows-refl rows)

pub Follows-update :
    (p : ServiceRequest → Bool) (f : ServiceRequest → ServiceRequest) (rows : List ServiceRequest)
    → ((r : ServiceRequest) → Memᴰ r rows → p r ≡ true → Advances r (f r))
    → Follows rows (update_where p f rows)
Follows-update p f [] h = none_left
Follows-update p f (r ∷ rows) h = elim (Bool-cases (p r)) [
  | inl e ↦
      simp e
        (one_more (h r (Memᴰ.head refl) e) (Follows-update p f rows (λ s m. h s (Memᴰ.tail m))))
  | inr e ↦ simp e (one_more (Advances-refl r) (Follows-update p f rows (λ s m. h s (Memᴰ.tail m))))
]

-- An id is the id of at most one request.
pub record UniqueIds (db : Db) : Type 0 where
  pub one_at_most : (id : Text) → count (has_request_id id) db.requests ≤ 1

-- An update of the one request that is there under the id.
pub mem-Follows :
    (f : ServiceRequest → ServiceRequest) (db : Db) (r : ServiceRequest)
    → UniqueIds db
    → Memᴰ r db.requests
    → Advances r (f r)
    → Follows db.requests (update_where (has_request_id r.id) f db.requests)
mem-Follows f db r unique there goes_on =
    Follows-update (has_request_id r.id) f db.requests (λ s m k.
      subst (λ s. Advances s (f s))
        (eq-of_count_one (has_request_id r.id) db.requests r s
          (ground (
            arith,
            unique.one_at_most r.id,
            count-pos-of_mem (has_request_id r.id) db.requests r there (text_eq_refl r.id),
          ))
          there m (text_eq_refl r.id) k)
        goes_on)

pub found-Follows :
    (p : ServiceRequest → Bool) (f : ServiceRequest → ServiceRequest) (db : Db) (r : ServiceRequest)
    → UniqueIds db
    → find p db.requests ≡ some r
    → Advances r (f r)
    → Follows db.requests (update_where (has_request_id r.id) f db.requests)
found-Follows p f db r unique e = mem-Follows f db r unique (find-mem p db.requests r e)

-- Request by request, each one goes on, and any may be added after them.
pub data Extends : List ServiceRequest → List ServiceRequest → Type 0 where
  all_new : {rows : List ServiceRequest} → Extends [] rows
  kept :
      {r s : ServiceRequest} {rows later : List ServiceRequest}
      → Advances r s
      → Extends rows later
      → Extends (r ∷ rows) (s ∷ later)

pub Follows-Extends : {rows later : List ServiceRequest} → Follows rows later → Extends rows later
Follows-Extends none_left = all_new
Follows-Extends (one_more a f) = kept a (Follows-Extends f)

pub Extends-trans :
    {rows mid later : List ServiceRequest}
    → Extends rows mid
    → Extends mid later
    → Extends rows later
Extends-trans all_new e = all_new
Extends-trans (kept a d) (kept b e) = kept (Advances-trans a b) (Extends-trans d e)

pub Extends-append : (rows added : List ServiceRequest) → Extends rows (rows ++ added)
Extends-append [] added = all_new
Extends-append (r ∷ rows) added = kept (Advances-refl r) (Extends-append rows added)

-- The tables go on: each request does, and ids stay unique.
pub record Evolved (before after : Db) : Type 0 where
  pub extends : Extends before.requests after.requests
  pub unique : UniqueIds after

Follows-count :
    {rows later : List ServiceRequest} (id : Text)
    → Follows rows later
    → count (has_request_id id) later ≡ count (has_request_id id) rows
Follows-count id none_left = refl
Follows-count id (one_more a f) =
    ground (arith, ap (λ (r : ServiceRequest). r.id) a.same_terms, Follows-count id f)

pub Follows-Evolved :
    (before after : Db)
    → UniqueIds before
    → Follows before.requests after.requests
    → Evolved before after
Follows-Evolved before after unique f = record {
  extends = Follows-Extends f;
  unique = record { one_at_most = λ id. ground (arith, Follows-count id f, unique.one_at_most id) };
}

pub same-Evolved :
    (before after : Db) → UniqueIds before → after.requests ≡ before.requests → Evolved before after
same-Evolved before after unique e =
    Follows-Evolved before after unique
      (subst (Follows before.requests) (sym e) (Follows-refl before.requests))

pub Evolved-trans :
    {before mid after : Db} → Evolved before mid → Evolved mid after → Evolved before after
Evolved-trans a b = record { extends = Extends-trans a.extends b.extends; unique = b.unique }

-- A row whose id no other has.
count-append_last :
    (p : ServiceRequest → Bool) (rows : List ServiceRequest) (r : ServiceRequest)
    → count p (rows ++ r ∷ []) ≡ count p rows + count p (r ∷ [])
count-append_last p [] r = ground arith
count-append_last p (x ∷ rows) r = ground (arith, count-append_last p rows r)

count-of_none :
    (p : ServiceRequest → Bool) (rows : List ServiceRequest) → any p rows ≡ false → count p rows ≡ 0
count-of_none p [] e = refl
count-of_none p (x ∷ rows) e = ground (arith, count-of_none p rows)

pub added-Evolved :
    (before after : Db) (r : ServiceRequest)
    → UniqueIds before
    → any (has_request_id r.id) before.requests ≡ false
    → after.requests ≡ before.requests ++ r ∷ []
    → Evolved before after
added-Evolved before after r unique free e = record {
  extends = subst (Extends before.requests) (sym e) (Extends-append before.requests (r ∷ []));
  unique = record { one_at_most = unique_then };
}
  where
    last_one : (id : Text) → count (has_request_id id) (before.requests ++ r ∷ []) ≤ 1
    last_one id = elim (Bool-cases (has_request_id id r)) [
      | inl k ↦
          let none_yet : count (has_request_id id) before.requests ≡ 0 =
            subst (λ id. count (has_request_id id) before.requests ≡ 0) (text_eq→eq r.id id k)
              (count-of_none (has_request_id r.id) before.requests free) in
          ground (arith, count-append_last (has_request_id id) before.requests r, none_yet)
      | inr k ↦
          ground (
            arith,
            k,
            count-append_last (has_request_id id) before.requests r,
            unique.one_at_most id,
          )
    ]

    unique_then : (id : Text) → count (has_request_id id) after.requests ≤ 1
    unique_then id = subst (λ rows. count (has_request_id id) rows ≤ 1) (sym e) (last_one id)
