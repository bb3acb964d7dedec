-- ===== src/Tunnel/Connection/Callbacks.antt =====
-- The callbacks of `send_frame`: how often each was given, is still held, and was called.
use remote_tool.Prelude.{
  ℕ, ◌+◌, ◌≡◌, refl, Option, none, some, List, [], ◌∷◌, ◌++◌, ◌==◌, if◌then◌else◌, arith,
}
use remote_tool.Protocol.ErrorCode.{ErrorCode}
use remote_tool.Tunnel.Connection.State.{
  WriteEntry, ConnectionEffect, takes, refuses, tells, TunnelConnection, call, drain,
}

-- Whether a callback is that of an id, as a number.
abbrev pub is_that : ℕ → Option ℕ → ℕ
is_that id none = 0
is_that id (some k) = if k == id then 1 else 0

abbrev pub tells_that : ℕ → ConnectionEffect → ℕ
tells_that id (tells k code) = if k == id then 1 else 0
tells_that id _ = 0

abbrev pub gives_that : ℕ → ConnectionEffect → ℕ
gives_that id (takes q e) = is_that id e.callback
gives_that id (refuses cb) = is_that id cb
gives_that id _ = 0

-- How often it was called, and how often it was given to `send_frame`.
unfoldable pub told : ℕ → List ConnectionEffect → ℕ
told id [] = 0
told id (e ∷ es) = tells_that id e + told id es

unfoldable pub given : ℕ → List ConnectionEffect → ℕ
given id [] = 0
given id (e ∷ es) = gives_that id e + given id es

-- How many entries of a queue have it, and how many of both.
unfoldable pub holders : ℕ → List WriteEntry → ℕ
holders id [] = 0
holders id (e ∷ es) = is_that id e.callback + holders id es

abbrev pub held : ℕ → TunnelConnection → ℕ
held id c = holders id c.control_queue + holders id c.data_queue

module _ (id : ℕ) where
  pub told-append : (xs ys : List ConnectionEffect) → told id (xs ++ ys) ≡ told id xs + told id ys
  unfolding told
  told-append [] ys = omega arith
  told-append (x ∷ xs) ys = omega (arith, told-append xs ys)

  pub given-append :
      (xs ys : List ConnectionEffect) → given id (xs ++ ys) ≡ given id xs + given id ys
  unfolding given
  given-append [] ys = omega arith
  given-append (x ∷ xs) ys = omega (arith, given-append xs ys)

  pub holders-append :
      (xs ys : List WriteEntry) → holders id (xs ++ ys) ≡ holders id xs + holders id ys
  unfolding holders
  holders-append [] ys = omega arith
  holders-append (x ∷ xs) ys = omega (arith, holders-append xs ys)

  pub told-call : (cb : Option ℕ) (code : ErrorCode) → told id (call cb code) ≡ is_that id cb
  unfolding told
  told-call none code = refl
  told-call (some k) code = omega arith

  pub given-call : (cb : Option ℕ) (code : ErrorCode) → given id (call cb code) ≡ 0
  unfolding given
  given-call none code = refl
  given-call (some k) code = refl

  pub told-drain :
      (code : ErrorCode) (es : List WriteEntry) → told id (drain code es) ≡ holders id es
  unfolding told drain holders
  told-drain code [] = refl
  told-drain code (e ∷ es) = omega (
    arith,
    told-append (call e.callback code) (drain code es),
    told-call e.callback code,
    told-drain code es,
  )

  pub given-drain : (code : ErrorCode) (es : List WriteEntry) → given id (drain code es) ≡ 0
  unfolding given drain
  given-drain code [] = refl
  given-drain code (e ∷ es) = omega (
    arith,
    given-append (call e.callback code) (drain code es),
    given-call e.callback code,
    given-drain code es,
  )
