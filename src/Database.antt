-- ===== src/Database.antt =====
-- class ConnectionPool of src/database.h and src/database.cpp. A connection is any value; the pool is
-- its vector of pointers, which may be null, and the count of those in use. The mutex makes each
-- operation one step.
pub mod Steps
pub mod Tests
use backend_for_browser_game.Base.{
  ℕ, zero, suc, ◌+◌, ◌-◌, ltb, ◌==◌, List, [], ◌∷◌, ◌++◌, map, length, get_elem?, set, Option, some,
  none, Result, ok, err, undefined, or_fail, ◌>>=◌, if◌then◌else◌,
}

pub record ConnectionPool (C : Type 0) : Type 0 where
  pub pool : List (Option C)
  pub used_connections : ℕ

module _ {C : Type 0} where
  -- The factory is called `capacity` times; its answers are a list here.
  unfoldable pub new_pool : List C → ConnectionPool C
  new_pool made = record { pool = map some made; used_connections = 0 }

  -- `none` while the call waits for the condition. The pointer is moved out of the vector.
  unfoldable pub get_connection : ConnectionPool C → Option (Option C × ConnectionPool C)
  get_connection p =
      if ltb p.used_connections (length p.pool)
      then some (
        slot (get_elem? p.pool p.used_connections),
        record {
          pool = set p.pool p.used_connections none;
          used_connections = p.used_connections + 1;
        },
      )
      else none
    where
      slot : Option (Option C) → Option C
      slot none = none
      slot (some c) = c

  -- The assertion fails on a pool of which nothing is in use.
  unfoldable pub return_connection : ConnectionPool C → C → Result (ConnectionPool C)
  return_connection p c =
      if p.used_connections == 0
      then err undefined
      else ok (record {
        pool = set p.pool (p.used_connections - 1) (some c);
        used_connections = p.used_connections - 1;
      })
