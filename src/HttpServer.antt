-- ===== src/HttpServer.antt =====
-- src/http_server.h and src/http_server.cpp: a session on a connection, and the listener, as the
-- operations that are under way. What boost::asio reports of an operation is an argument of the
-- callback. The socket, its time limit and the log of errors are left out.
pub mod Steps
pub mod Liveness
pub mod Tests
use backend_for_browser_game.Base.{
  ℕ, suc, ◌+◌, Bool, true, false, List, [], ◌∷◌, ◌++◌, if◌then◌else◌,
}

-- How a read ends, with the request that it brings.
pub data ReadResult (Q : Type 0) : Type 0 where
  end_of_stream failed : ReadResult Q
  arrived : Q → ReadResult Q

-- An operation under way: a read, a request that the handler has, a write of a response. The flag is
-- `need_eof` of the response.
pub data Operation (Q A : Type 0) : Type 0 where
  reading : Operation Q A
  handling : Q → Operation Q A
  writing : A → Bool → Operation Q A

-- `class SessionBase`: what is under way, and the requests and responses so far, the oldest first.
-- The session lives as long as an operation holds a pointer to it.
pub record Session (Q A : Type 0) : Type 0 where
  pub pending : List (Operation Q A)
  pub received : List Q
  pub sent : List A
  pub shutdown_asked : Bool

module _ {Q A : Type 0} where
  abbrev pub start : Operation Q A → Session Q A → Session Q A
  start op s = record s { pending = op ∷ s.pending }

  unfoldable pub read : Session Q A → Session Q A
  read s = start reading s

  -- SessionBase::Run on the session of a fresh socket.
  unfoldable pub run : Session Q A
  run = read (record { pending = []; received = []; sent = []; shutdown_asked = false })

  -- The sending side of the socket is shut down; that this fails is only reported.
  unfoldable pub close : Session Q A → Session Q A
  close s = record s { shutdown_asked = true }

  unfoldable pub handle_request : Session Q A → Q → Session Q A
  handle_request s q = start (handling q) (record s { received = s.received ++ (q ∷ []) })

  unfoldable pub on_read : Session Q A → ReadResult Q → Session Q A
  on_read s end_of_stream = close s
  on_read s failed = s
  on_read s (arrived q) = handle_request s q

  -- DoWrite, when the handler calls `send`.
  unfoldable pub write : Session Q A → A → Bool → Session Q A
  write s a need_eof = start (writing a need_eof) s

  -- `ok` is whether the write was without an error.
  unfoldable pub on_write : Session Q A → A → Bool → Bool → Session Q A
  on_write s a need_eof false = s
  on_write s a need_eof true =
      let done = record s { sent = s.sent ++ (a ∷ []) } in
      if need_eof then close done else read done

-- `class Listener`: the accepts under way, and the sockets whose sessions run.
pub record Listener (S : Type 0) : Type 0 where
  pub accepting : ℕ
  pub sessions : List S

module _ {S : Type 0} where
  unfoldable pub do_accept : Listener S → Listener S
  do_accept l = record l { accepting = suc l.accepting }

  unfoldable pub async_run_session : Listener S → S → Listener S
  async_run_session l socket = record l { sessions = socket ∷ l.sessions }

  -- When an accept is over: `false` is an error.
  unfoldable pub on_accept : Listener S → Bool → S → Listener S
  on_accept l false socket = l
  on_accept l true socket = do_accept (async_run_session l socket)
