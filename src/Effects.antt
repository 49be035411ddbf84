-- ===== src/Effects.antt =====
-- What the handlers and the worker do to the outside: the world that they act on, the calls that
-- can fail, and the database statements of the Prisma client, which is not part of the repository.
-- Every call takes one tick of the world's clock, and the environment decides, tick by tick,
-- whether it goes through, throws, or takes the process down with it; a theorem holds for every
-- environment, so for every schedule of failures and crashes.
mod Monad
mod Statements
mod Rules
pub use Monad.*
pub use Rules.*
pub use Statements.*
