-- ===== src/Platform.antt =====
-- internal/platform: the errors, the actor of a command and the event envelope.
pub mod Errors
pub mod Results
pub mod Actors
pub mod Envelope
pub use Errors.{Error}
pub use Results.{
  Result, ok, err, Action, pure, fail, ◌>>=◌, ◌>>◌, refuse_if, or_return, >>=-ok, Result-cases,
}
pub use Actors.{Actor}
