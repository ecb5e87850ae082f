-- ===== src/Build/FunctionBuilder/Methods.antt =====
-- The public methods of the builder (build/mod.rs, terminator.rs, statement.rs) as steps of `Reach`.
use minirust.Prelude.{
  ℕ, ◌≡◌, refl, Bool, List, [], ◌∷◌, none, some, get_elem?, zero, suc, ap, subst, some_inj,
}
use minirust.Prelude.Int.{ℤ, pos}
use minirust.Lang.Syntax.{
  FnName, ValueExpr, PlaceExpr, ArgumentExpr, Statement, CallingConvention, Terminator,
}
use minirust.Build.Types.{u8}
use minirust.Build.Exprs.{transmute}
use minirust.Build.Places.{unit_place, fn_ptr}
use minirust.Build.Terminators as T
use minirust.Build.Terminators.{FetchBinOp}
use minirust.Build.FunctionBuilder.{FunctionBuilder}
use minirust.Build.FunctionBuilder.Statements as S
use minirust.Build.FunctionBuilder.Terminators as M
use minirust.Build.FunctionBuilder.Branches.{Branch, if_}
use minirust.Build.FunctionBuilder.Reach.{Reach, statement, finish, continue_at, switch}

-- A method whose calls are steps
abbrev pub Does : Branch → Type 0
Does method = (fb fb' : FunctionBuilder) → method fb ≡ some fb' → Reach fb fb'

pub assign-Does : (d : PlaceExpr) (s : ValueExpr) → Does (S.assign d s)
unfolding S.assign
assign-Does d s fb fb' h = statement (Statement.assign d s) h

pub place_mention-Does : (p : PlaceExpr) → Does (S.place_mention p)
unfolding S.place_mention
place_mention-Does p fb fb' h = statement (Statement.place_mention p) h

pub set_discriminant-Does : (d : PlaceExpr) (v : ℤ) → Does (S.set_discriminant d v)
unfolding S.set_discriminant
set_discriminant-Does d v fb fb' h = statement (Statement.set_discriminant d v) h

pub validate-Does : (p : PlaceExpr) (b : Bool) → Does (S.validate p b)
unfolding S.validate
validate-Does p b fb fb' h = statement (Statement.validate p b) h

pub storage_live-Does : (p : PlaceExpr) → Does (S.storage_live p)
unfolding S.storage_live
storage_live-Does (PlaceExpr.local name) fb fb' h = statement (Statement.storage_live name) h
storage_live-Does _ fb fb' h = cc

pub storage_dead-Does : (p : PlaceExpr) → Does (S.storage_dead p)
unfolding S.storage_dead
storage_dead-Does (PlaceExpr.local name) fb fb' h = statement (Statement.storage_dead name) h
storage_dead-Does _ fb fb' h = cc

pub exit-Does : Does M.exit
unfolding M.exit T.exit
exit-Does fb fb' h = finish T.exit refl h

pub unreachable-Does : Does M.unreachable
unfolding M.unreachable
unreachable-Does fb fb' h = finish Terminator.unreachable refl h

pub return_-Does : Does M.return_
unfolding M.return_
return_-Does fb fb' h = finish Terminator.return_ refl h

pub panic-Does : Does M.panic
unfolding M.panic T.panic
panic-Does fb fb' h = finish T.panic refl h

pub call_noret-Does :
    (ret : PlaceExpr) (f : ValueExpr) (args : List ArgumentExpr) → Does (M.call_noret ret f args)
unfolding M.call_noret
call_noret-Does ret f args fb fb' h =
    finish (Terminator.call f CallingConvention.c args ret none) refl h

pub call-Does :
    (ret : PlaceExpr) (f : ValueExpr) (args : List ArgumentExpr) → Does (M.call ret f args)
unfolding M.call
call-Does ret f args fb fb' h =
    continue_at (λ next. Terminator.call f CallingConvention.c args ret (some next)) (λ b. refl) h

pub call_ignoreret-Does :
    (f : ValueExpr) (args : List ArgumentExpr) → Does (M.call_ignoreret f args)
unfolding M.call_ignoreret
call_ignoreret-Does f args fb fb' h =
    continue_at (λ next. Terminator.call f CallingConvention.c args unit_place (some next))
      (λ b. refl) h

pub if_-Does :
    (condition : ValueExpr) (then_branch else_branch : Branch)
    → Does then_branch
    → Does else_branch
    → Does (if_ condition then_branch else_branch)
unfolding if_
if_-Does condition then_branch else_branch ht he fb fb' h =
    switch (transmute condition u8.get_type) ((pos 1, then_branch) ∷ []) else_branch only he h
  where
    only :
        (i : ℕ) (k : ℤ) (branch : Branch)
        → get_elem? {A = ℤ × Branch} ((pos 1, then_branch) ∷ []) i ≡ some (k, branch)
        → Does branch
    only zero k branch e = subst Does (ap (λ (x : ℤ × Branch). x.1) (some_inj e)) ht
    only (suc i) k branch e = cc

pub assume-Does : (val : ValueExpr) → Does (M.assume val)
unfolding M.assume T.assume
assume-Does val fb fb' h = continue_at (T.assume val) (λ b. refl) h

pub print-Does : (arg : ValueExpr) → Does (M.print arg)
unfolding M.print T.print
print-Does arg fb fb' h = continue_at (T.print arg) (λ b. refl) h

pub eprint-Does : (arg : ValueExpr) → Does (M.eprint arg)
unfolding M.eprint T.eprint
eprint-Does arg fb fb' h = continue_at (T.eprint arg) (λ b. refl) h

pub allocate-Does :
    (size : ValueExpr) (align : ValueExpr) (ret_place : PlaceExpr)
    → Does (M.allocate size align ret_place)
unfolding M.allocate T.allocate
allocate-Does size align ret_place fb fb' h =
    continue_at (T.allocate size align ret_place) (λ b. refl) h

pub deallocate-Does :
    (ptr : ValueExpr) (size : ValueExpr) (align : ValueExpr) → Does (M.deallocate ptr size align)
unfolding M.deallocate T.deallocate
deallocate-Does ptr size align fb fb' h = continue_at (T.deallocate ptr size align) (λ b. refl) h

pub spawn-Does :
    (f : FnName) (data_ptr : ValueExpr) (ret : PlaceExpr) → Does (M.spawn f data_ptr ret)
unfolding M.spawn T.spawn
spawn-Does f data_ptr ret fb fb' h = continue_at (T.spawn (fn_ptr f) data_ptr ret) (λ b. refl) h

pub join-Does : (thread_id : ValueExpr) → Does (M.join thread_id)
unfolding M.join T.join
join-Does thread_id fb fb' h = continue_at (T.join thread_id) (λ b. refl) h

pub raw_eq-Does :
    (dest : PlaceExpr) (left_ptr : ValueExpr) (right_ptr : ValueExpr)
    → Does (M.raw_eq dest left_ptr right_ptr)
unfolding M.raw_eq T.raw_eq
raw_eq-Does dest left_ptr right_ptr fb fb' h =
    continue_at (T.raw_eq dest left_ptr right_ptr) (λ b. refl) h

pub atomic_store-Does : (ptr : ValueExpr) (src : ValueExpr) → Does (M.atomic_store ptr src)
unfolding M.atomic_store T.atomic_store
atomic_store-Does ptr src fb fb' h = continue_at (T.atomic_store ptr src) (λ b. refl) h

pub atomic_load-Does : (dest : PlaceExpr) (ptr : ValueExpr) → Does (M.atomic_load dest ptr)
unfolding M.atomic_load T.atomic_load
atomic_load-Does dest ptr fb fb' h = continue_at (T.atomic_load dest ptr) (λ b. refl) h

pub atomic_fetch-Does :
    (binop : FetchBinOp) (dest : PlaceExpr) (ptr : ValueExpr) (other : ValueExpr)
    → Does (M.atomic_fetch binop dest ptr other)
unfolding M.atomic_fetch T.atomic_fetch
atomic_fetch-Does binop dest ptr other fb fb' h =
    continue_at (T.atomic_fetch binop dest ptr other) (λ b. refl) h

pub compare_exchange-Does :
    (dest : PlaceExpr) (ptr : ValueExpr) (current : ValueExpr) (next_val : ValueExpr)
    → Does (M.compare_exchange dest ptr current next_val)
unfolding M.compare_exchange T.compare_exchange
compare_exchange-Does dest ptr current next_val fb fb' h =
    continue_at (T.compare_exchange dest ptr current next_val) (λ b. refl) h

pub expose_provenance-Does :
    (dest : PlaceExpr) (ptr : ValueExpr) → Does (M.expose_provenance dest ptr)
unfolding M.expose_provenance T.expose_provenance
expose_provenance-Does dest ptr fb fb' h = continue_at (T.expose_provenance dest ptr) (λ b. refl) h

pub with_exposed_provenance-Does :
    (dest : PlaceExpr) (addr : ValueExpr) → Does (M.with_exposed_provenance dest addr)
unfolding M.with_exposed_provenance T.with_exposed_provenance
with_exposed_provenance-Does dest addr fb fb' h =
    continue_at (T.with_exposed_provenance dest addr) (λ b. refl) h

pub lock_create-Does : (ret : PlaceExpr) → Does (M.lock_create ret)
unfolding M.lock_create T.lock_create
lock_create-Does ret fb fb' h = continue_at (T.lock_create ret) (λ b. refl) h

pub lock_acquire-Does : (lock_id : ValueExpr) → Does (M.lock_acquire lock_id)
unfolding M.lock_acquire T.lock_acquire
lock_acquire-Does lock_id fb fb' h = continue_at (T.lock_acquire lock_id) (λ b. refl) h

pub lock_release-Does : (lock_id : ValueExpr) → Does (M.lock_release lock_id)
unfolding M.lock_release T.lock_release
lock_release-Does lock_id fb fb' h = continue_at (T.lock_release lock_id) (λ b. refl) h
