-- ===== src/Park.antt =====
-- fumio-utils/src/park/park_thread.rs: parking a thread. What `std::thread` does is a parameter.
pub mod Laws
mod Examples
use rust_fumio.Prelude.{ℕ, zero, suc, ◌≡◌, refl, Bool, true, false, Option, none, some}

-- `std::thread`, on the token of one thread: whether it is available, and what parking leaves; `none` is
-- a thread that stays suspended until another makes the token available. The laws are those of its
-- documentation: parking takes the token, and does not suspend the thread if there is one.
pub record Thread (Token : Type 0) : Type 0 where
  pub available : Token → Bool
  pub park : Token → Option Token
  pub park_timeout : ℕ → Token → Token
  pub unpark : Token → Token
  pub unpark_makes : (t : Token) → available (unpark t) ≡ true
  pub park_takes :
      (t : Token) → available t ≡ true → (t' : Token) × (park t ≡ some t') × (available t' ≡ false)
  pub timeout_takes : (d : ℕ) (t : Token) → available (park_timeout d t) ≡ false

module _ {Token : Type 0} (thread : Thread Token) where
  -- `ParkThread::park`, the duration in units of a clock.
  unfoldable pub park_thread : Option ℕ → Token → Option Token
  park_thread none token = thread.park token
  park_thread (some zero) token = some token
  park_thread (some (suc duration)) token = some (thread.park_timeout (suc duration) token)

  -- `wake_by_ref` of `ThreadNotify`
  unfoldable pub wake_thread : Token → Token
  wake_thread token = thread.unpark token

-- The least that keeps these laws: a token that is a Boolean.
abbrev pub suspend : Bool → Option Bool
suspend true = some false
suspend false = none

pub suspend-takes : (t : Bool) → t ≡ true → (t' : Bool) × (suspend t ≡ some t') × (t' ≡ false)
suspend-takes true e = (false, refl, refl)
suspend-takes false e = absurd (cc)

abbrev pub one_token : Thread Bool
one_token = record {
  available = λ t. t;
  park = suspend;
  park_timeout = λ _ _. false;
  unpark = λ _. true;
  unpark_makes = λ _. refl;
  park_takes = suspend-takes;
  timeout_takes = λ _ _. refl;
}
