-- ===== src/App/Group.antt =====
-- The errgroup of run in cmd/app/main.go, golang.org/x/sync/errgroup, which is a parameter.
use wb_test_task.Base.{◌≡◌, refl, sym, ap, ◌∙◌, Bool, true, Option, none, some}
use wb_test_task.Runtime.{Error}
use wb_test_task.Server.Grpc.{is_given}

-- `finish` is the return of a function given to Go. `failure` is what Wait answers when all of them have
-- returned, the first error that is not nil; until then the group cancels its context with the first
-- such error.
pub record ErrGroup : Type 1 where
  pub Group : Type 0
  pub with_context : Group
  pub finish : Option Error → Group → Group
  pub failure : Group → Option Error
  pub is_canceled : Group → Bool
  pub failure-with_context : failure with_context ≡ none
  pub failure-finish_nil : (g : Group) → failure (finish none g) ≡ failure g
  pub failure-finish_first :
      (e : Error) (g : Group) → failure g ≡ none → failure (finish (some e) g) ≡ some e
  pub failure-finish_later :
      (e d : Error) (g : Group) → failure g ≡ some d → failure (finish (some e) g) ≡ some d
  pub is_canceled-failure : (g : Group) → is_canceled g ≡ is_given (failure g)

module _ (errgroup : ErrGroup) where
  open errgroup use {
    Group, finish, failure, is_canceled, failure-finish_nil, failure-finish_first,
    failure-finish_later, is_canceled-failure,
  }

  pub failed_cancels : (g : Group) (e : Error) → failure g ≡ some e → is_canceled g ≡ true
  failed_cancels g e p = is_canceled-failure g ∙ ap is_given p

  -- An error that is returned cancels the context, if it was not cancelled before.
  pub is_canceled-finish_some : (e : Error) (g : Group) → is_canceled (finish (some e) g) ≡ true
  is_canceled-finish_some e g = by_failure (failure g) refl
    where
      by_failure : (f : Option Error) → failure g ≡ f → is_canceled (finish (some e) g) ≡ true
      by_failure none p = failed_cancels (finish (some e) g) e (failure-finish_first e g p)
      by_failure (some d) p = failed_cancels (finish (some e) g) d (failure-finish_later e d g p)

  -- A nil that is returned cancels nothing.
  pub is_canceled-finish_nil : (g : Group) → is_canceled (finish none g) ≡ is_canceled g
  is_canceled-finish_nil g =
      is_canceled-failure (finish none g)
      ∙ ap is_given (failure-finish_nil g)
      ∙ sym (is_canceled-failure g)

  pub is_canceled-finish :
      (r : Option Error) (g : Group) → is_canceled g ≡ true → is_canceled (finish r g) ≡ true
  is_canceled-finish none g h = is_canceled-finish_nil g ∙ h
  is_canceled-finish (some e) g h = is_canceled-finish_some e g
