-- ===== src/Lib.antt =====
-- Verification of the C programs of the network laboratory.
--
-- The repository holds small client and server programs, one exercise to a folder, that share no
-- code. A model of each stands in a module of its own, with children for what is proved.
--
-- Voting: esercitazione9/server.c, the voting server that is called over RPC. `Server` is its
--   static data: the registry `reg`, the flag `done` of `inizializza` and the output `res` of the
--   ranking. `inizializza`, `classifica_giudici` and `esprimi_voto` are the procedures of these
--   names (the last two without `_1_svc`), `collect` and `sort_outer` are the two loops of the
--   ranking. The generated dispatch and the XDR routines around them are not modelled.
-- VotingClient: esercitazione9/client.c over the procedures of the voting server. `feed` takes
--   one word of the input, at the `scanf` that the client stands before, `show` and `cast` are the
--   two calls and `end_input` the end of the input; whether a call is run and its result comes
--   back is a parameter.
-- Words: esercitazione_4/src/server.c, the datagram branch of its main loop, which deletes a
--   word from a file. `serve` is the branch, `delete_word` the scan over the file (`scan_byte` the
--   body of its loop), `parse_request` the two `strtok` calls; `build_request` is the request as
--   esercitazione_4/src/clientDatagram.c puts it together.
-- Datagram: one request of the datagram clients, `call_server`: its `sendto`, the copies of the
--   datagram that reach the server, and its `recvfrom`. What the network does is a parameter.
-- WordsClient: the main loop of esercitazione_4/src/clientDatagram.c, `converse`, with the datagram
--   branch of the server behind it, whose `rename` may fail; `WordsClient.Store` has the files of the server
--   as a map.
-- Lines: esercitazione_3/es2/serverTCP.c, which receives files and sends each back without a
--   line. `receive` is the body of the loop over a file and `serve_file` the request behind its
--   header; `Lines.Connection` has the header (`receive_header`) and the loop of a child process
--   over the requests (`serve_connection`), and the bytes that esercitazione_3/es2/clientTCP.c
--   sends for a request. `Lines.Accepting` has the loop that accepts connections (`accept_loop`) and
--   the fork (`take_connection`); the signal handler is not modelled.
-- LineClient: the dialogue of esercitazione_3/es2/clientTCP.c. `feed` takes one word of the input,
--   `request_file` is the request for one file with `send_file` as its loop, and `replace_file` the
--   renaming of the temporary file. What `recv` gives is a list.
-- Exchange: the loop of esercitazione_3/es2/clientTCP.c over one file against the loop of the
--   server, as a system with the two streams of the connection between them. `send_byte` and
--   `take_chunk` are the client's loop, `serve_byte` and `serve_last` the server's, `act` one
--   action of either and `run` a list of actions in any order; a stream gives any part of what has
--   been sent, in order.
-- Polling: the loops of esercitazione_3/es2/clientTCPselect.c against the same server.
--   `poll_act` is one action; when `select` times out is open. `Polling.Client` has the same loops by
--   what each poll gives (`poll_file`), in the dialogue of `LineClient` (`poll_session`).
-- Longest: esercitazione_3/es1/serverDatagram.c, the main loop that answers with the length of a
--   file's longest word. `serve` is its body and `read_words` the reading loop; `ask_longest` of
--   `Longest.Client` is the main loop of esercitazione_3/es1/clientDatagram.c.
-- Counting: esercitazione7/implementazione.c, the procedures `contafile` and `contadir` (both
--   without `_1_svc`) that are called over RPC.
-- CountClient: esercitazione7/client.c over these procedures. `session` is its main loop,
--   `ask_contafile` and `ask_contadir` the branches of the two procedures, `call` a remote call of
--   which any number of copies may run.
-- Listing: esercitazione_4/src/server.c, the connection of a child process, which lists the
--   files in the subdirectories of a directory. `list_directory` is one request, from where its
--   name has been read, `serve_child` of `Listing.Connection` the loop over the names, and
--   `ask_directory` of `Listing.Client` what esercitazione_4/src/clientTCP.c does behind the
--   sending of a name, and `browse` of `Listing.Session` its main loop.
-- Dispatch: esercitazione_4/src/server.c, the main loop. `main_loop` is the loop over what
--   `select` gives, `serve_stream` the accepting of a connection and the fork, `serve_datagram`
--   the datagram branch around `Words.serve`. What a child does with its connection is `Listing`.
-- Filter: esercitazione_0/consumatore.c, the filter that removes characters. `skimmed` is its
--   array of characters, `skim` the loop that fills it and `copy` the loop over the input.
-- Producer: esercitazione_0/produttore.c, which writes every character of its input as an `int`.
--   `write_all` is its loop.
-- Writer: esercitazione_0/scrittore.c, which writes one text over and over. `write_rounds` is its
--   loop, by the rounds that it is given.
-- Startup: how the socket programs of exercises 3 and 4 check their arguments and make their
--   sockets, from the start of `main` to the main loop: `longest_server` and `longest_client` (the
--   datagram programs of esercitazione_3/es1), `line_server`, `line_client` and `select_client`
--   (esercitazione_3/es2), `word_server`, `word_client` and `directory_client`
--   (esercitazione_4/src).
-- Base: tests on numbers, lists, integers, C strings and TCP streams, which all of them use.
--
-- Conventions: a C string is the list of its bytes without the terminator; an operation whose
-- result is an `Option` gives `none` where the C standard leaves the run undefined (an access past
-- an array, a signed overflow, a string that does not fit its array, a null pointer). An `int` is
-- an integer that a checked sum keeps within 32 bits, a counter that is not negative a natural
-- number that `count_up` keeps below 2^31. A file that is read byte by byte is the list of its
-- bytes, and what system calls answer is an argument of the operation that makes them. The loops
-- over arrays, files and received bytes recur on the list of elements, the counted ones on the
-- rounds left. Fuel is used by `serve_connection`, `serve_child` and `ask_directory`: one round for
-- each event that is still to come and one more, which is enough as each round takes an event; and
-- by the `session` of `CountClient`, where each round takes a byte of the input. The printing of
-- messages is left out but for that of the array that `recv` fills in the two clients of the line
-- service, which is undefined where no zero byte ends it. A call that gives a descriptor takes the
-- number of those that are open where the program does not close them (`Counting`,
-- `CountClient`, `Longest`, `Dispatch`).
--
-- Not modelled: the Java programs, what rpcgen has generated, the handlers of signals, how the RPC
-- clients check their arguments and make their handles, and what the two clients of the line service
-- do at the end of their input.
pub mod Base
pub mod Voting
pub mod Words
pub mod Lines
pub mod Longest
pub mod Counting
pub mod Startup
pub mod Listing
pub mod Filter
pub mod Exchange
pub mod Polling
pub mod Producer
pub mod Writer
pub mod VotingClient
pub mod Dispatch
pub mod Datagram
pub mod WordsClient
pub mod LineClient
pub mod CountClient
