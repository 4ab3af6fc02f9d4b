-- ===== src/Lib.antt =====
-- A template for embedded programs: a library of parts in C that an application links together,
-- most of them independent of each other. What is modelled, from the repository's root:
--
--   RingBuffer   src/ringbuffer/ringbuffer.c      bytes between an interrupt and the main program
--   Atcmd        src/atcmd/atcmd.c                commands for a modem on a serial line
--   M35          src/dtu_m35/dtu_m35.c            the driver of an M35 modem
--   Datetime     src/misc/second_datetime.c       seconds since 2000 against calendar dates
--   MemPool      src/mem_pool/mem_pool.c          a first-fit allocator over a list in the memory
--   Bcd          src/misc/bcd_code.c              packed decimal digits
--   Timer        src/misc/timer.c                 countdowns on a 32-bit time
--   Gpio         src/gpio/gpio_platform.h         the table of operations on pins
--   Hcf4052      src/drivers/hcf4052/hcf4052.c    a multiplexer on three pins
--   Spi          src/spi/spi.c                    transfers made of single bytes
--   Softspi      src/spi/softspi.c                an SPI bus on pins
--   I2c          src/i2c/i2c.c, locked_i2c.c      the table of a two-wire bus, and a locked bus
--   Softi2c      src/i2c/softi2c.c                a two-wire bus on pins
--   Pcf212x      src/drivers/pcf212x/pcf212x.c    a clock chip on the two-wire bus
--   Sd2405       src/drivers/sd2405al/sd2405al.c  another clock chip
--   Ltc6804      src/drivers/ltc/ltc6804.c        a battery monitor on the SPI bus
--   Dac856x      src/drivers/dac856x/dac856x.c    a converter on the SPI bus
--   Dac816x      src/drivers/dac816x/dac816x.c    a converter with two channels
--   Ad5259       src/drivers/ad5259/ad5259.c      a potentiometer on the two-wire bus
--   Async        src/async/*.c                    events that a looper runs
--   Shell        src/shell/shell.c                a line editor and the commands of a line
--
-- The drivers reach the hardware through tables of operations only: Hcf4052 and Softspi through
-- that of Gpio, and Softspi through the loops of Spi, which take the bus's `transmit_byte` as an
-- argument. The tables are filled by platform code, so they are parameters here: Hcf4052 assumes
-- the laws of Gpio.IsBank, and so do the select lines of Softspi, whose bytes are stated against a
-- device, Softspi.Listener, that follows the clock. Timer takes the time as an argument. Atcmd puts
-- the bytes it takes into ring buffers of RingBuffer, takes replies from there, and is told by an
-- argument what arrives in each wait; it gives the time to the interrupt with each byte. M35 sends
-- its commands through Atcmd, and takes those of other tasks from a ring of RingBuffer. Async keeps
-- its commands in a ring buffer too, and runs callbacks, which are a parameter with the law
-- IsCallback. Softi2c drives pins, and is one way to fill the table of I2c, through which the clock
-- chips and Ad5259 go; the clock chips use Datetime, and Pcf212x uses Bcd. Sd2405 takes the
-- conversions of decimal digits as an argument with the laws IsDigits, since no file has them.
-- Ltc6804, Dac856x and Dac816x take the SPI bus as an argument. The other parts call nothing
-- outside themselves.
--
-- Correspondence. A struct is a record with the source's fields, and an enumeration a data type. A
-- function keeps its name, less the prefix of its file, and takes and returns the state it changes;
-- an argument passed by reference is returned. A loop is a function named after its function, with
-- `_loop`. NULL is `none`, or a flag where only the test for NULL matters; a buffer that is filled
-- is returned as the list of what was stored. Numbers are natural numbers with the wrap of the C
-- type written out: `u8`, `u16` and `u32` of Prelude/Words. Prelude has what the parts share: the
-- Boolean tests, lists, words, and the check of a test on a whole range of numbers by evaluation.
--
-- The parts' own modules: RingBuffer/Contents says what bytes a ring holds, RingBuffer/Invariant
-- which rings are valid; Append, Take, Strings and Drop are about the functions. Atcmd/Receive is
-- about the data behind an announcement, Atcmd/Announce about whole frames. Atcmd/Text has the
-- functions of the C library on text; Line, Retry, Tcp and Query have the commands; Ends is about
-- their loops, Sent and Connection about what they send, Typed about a line of text that the
-- receiver takes, Answer, Liveness and Unanswered about a modem that answers or does not, Signal
-- and Address about the numbers in texts, Chunks about data from a callback. M35/Configure, Status
-- and Queue have the functions, Serve is about the queue, Restart about the times between attempts.
-- Datetime/Split is about the tables of years and months, RoundTrip and Back about the two
-- directions. MemPool/Chain says which blocks a list of segments spells, Carve, Search and Allocate
-- are about handing out, Combine, Release and Insert about giving back. Softspi/Exchange is about
-- one byte, Softspi/Stream about runs, Softspi/Lines about the select lines. Softi2c/Monitor is the
-- bus as seen from outside: a slave's levels come from a list, and starts, stops and pulses are
-- recorded; Softi2c/Bytes is about one byte, Softi2c/Transfers about whole transfers,
-- Softi2c/Refused about those that the slave refuses. I2c/RegisterChip is a chip that keeps its
-- registers, against which the clock chips and Ad5259 are stated. Datetime/Century is about the
-- dates that two digits of the year can hold. Ltc6804/Crc has the check word bit by bit,
-- Ltc6804/Frames a bus that records what goes out, Ltc6804/Registers the operations on one monitor
-- and Ltc6804/Groups the words they store. Async/Events and Async/Looper have the functions; Queue
-- is about the commands that wait, Owned about where the events are, Calls about the functions for
-- other threads, Due about the events whose time is over, Commands and Rounds about the looper, and
-- History about sequences of all of these. Dac856x/Latch is a converter that shows the last
-- transfer. Dac816x/Commands has a bus that records, and Dac816x/Output is about the voltage;
-- Ad5259/Wiper is about the resistance. Shell/Lines is about the editor, Shell/Words and
-- Shell/Arguments about lines of words, Shell/Lookup about the table of commands. The modules Tests
-- hold examples.
--
-- Fuel. A loop without a bound in its own test runs on fuel. A string is read with one round more
-- than bytes stored, since a round that goes on takes a byte. The loops of the pool end with
-- `out_of_fuel` where the fuel is too small, and the theorems show that more rounds than there are
-- blocks are enough. The loops over the eight bits of a byte have nine rounds, so that they end by
-- their own test. The looper never ends by itself: it runs on the list of what the platform answers
-- in each round. The arguments of a shell line are cut off in eleven rounds, one more than
-- SHELL_MAX_ARGS; the line editor goes through the characters that are typed. A loop that waits for
-- a line has as many rounds as the semaphore was posted, or bytes may come that post it, and one or
-- two more: each round that goes on takes a count. The loop that switches the modem on uses up an
-- answer of the pin in each round.
--
-- Bounds. The pool's headers take 8 bytes, as with pointers of 32 bits; its addresses are plain
-- numbers, and block sizes are uint16_t values whose sum fits where a theorem says so. An `int` has
-- more than 16 bits. A `long` has 32 bits. The clock of the commands is 32 bits wide and goes on in
-- waits alone, by the time that the wait was given, or by what its argument says if it was ended.
-- The commands of M35 lie in memory as a structure whose fields hold values of 32 or 16 bits. The
-- layout of a command of src/async is taken to keep any two numbers as its fields, of which only
-- those of 32 bits occur. The calendar has a leap year every four years, 2100 too.
--
-- Not modelled: the waits of tasks for the result of a command of the M35 modem, and what they
-- return; reads behind the end of a buffer that has no 0 in it, which end at the end of what the
-- argument says lies there; the other converters, the help of the shell and the sizes of its
-- buffers but for the line that is read, the SD card and the PID controller; mutexes, so that a
-- function of src/async runs without another one in between; the list header of src/misc, whose
-- lists are sequences here. The layers for operating systems and for the HCS12 processor touch
-- registers and system calls. src/lua and src/mqtt are copies of other projects.
pub mod Prelude
pub mod RingBuffer
pub mod Datetime
pub mod MemPool
pub mod Gpio
pub mod Hcf4052
pub mod Bcd
pub mod Spi
pub mod Softspi
pub mod Timer
pub mod Atcmd
pub mod Async
pub mod Ltc6804
pub mod Softi2c
pub mod I2c
pub mod Pcf212x
pub mod Sd2405
pub mod Shell
pub mod Dac856x
pub mod M35
pub mod Dac816x
pub mod Ad5259
