-- ===== src/Examples.antt =====
-- examples: the programs that show how the library is used.
pub mod EchoServer
pub mod RequestClient
pub mod TickerClient
pub mod Echoes
pub mod Ticks

-- How a `main` stands: it has returned, or a call of `expect` has panicked.
pub data Exit : Type 0 where
  returned panicked : Exit
