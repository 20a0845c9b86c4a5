-- ===== src/Examples.antt =====
-- Tests of the model at concrete inputs.
mod Ascii
mod Queries
mod Tops
mod Windows
mod Words
mod Consumers
mod Handling
mod Goroutines
mod Shutdown
mod Producing
mod Collectors
mod Serving
mod Durations
