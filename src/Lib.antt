-- ===== src/Lib.antt =====
-- mpdscribble: a client of MPD that submits the songs MPD plays to AudioScrobbler servers (last.fm,
-- libre.fm) or writes them to a log file.
--
-- How the program works. MpdObserver keeps a connection to MPD and tells its listener when a song
-- starts, goes on, pauses, resumes and ends. The listener is Instance: it measures with a Stopwatch how
-- long a song runs, and hands a song that ran long enough to MultiScrobbler, which builds a Record of it
-- and pushes it to each Scrobbler. A Scrobbler holds a queue of records and is a state machine over
-- timers and HTTP requests: a handshake opens a session, in which it sends the song that is playing and
-- submits the queue in batches of up to ten songs. A timer of Instance saves each queue to a journal
-- file, from which the queue is filled at the next start. The configuration comes from the command line
-- and from a file. An event loop calls the timers, the deferred events and the sockets of all of these;
-- libcurl, which carries the requests, is driven by it too.
--
-- Which file models which part of the repository:
--   Record                src/Record.hxx
--   Form                  src/Form.hxx, src/Form.cxx: the body of a POST request
--   Text                  src/util/CharUtil.hxx, StringStrip.cxx, StringSplit.hxx, and what the code
--                         uses of the C library on text (fgets, atoi, printf of a number)
--   Util.HexFormat        src/util/HexFormat.hxx
--   Scrobbler             src/Scrobbler.hxx, src/Scrobbler.cxx: State has the members, Response the
--                         parsers of the answers, Requests the texts that are sent, Operations a
--                         function for each method, Events what can happen to a scrobbler; Invariant,
--                         Batch, Delivery, Session, Backoff, LogFile and Drain have the proofs
--   Journal               src/Journal.cxx: journal_write and journal_read
--   MultiScrobbler        src/MultiScrobbler.cxx: now_playing is NowPlaying(), song_change SongChange(),
--                         submit_all_now SubmitNow(), write_journals WriteJournal(), construct_all the
--                         constructor; Each, Start and Restart have the proofs
--   Song, Stopwatch       struct mpd_song as its accessors show it, src/time/Stopwatch.hxx
--   Instance              src/Instance.cxx and the handlers in src/Main.cxx: on_mpd_started is
--                         OnMpdStarted(), and so on; Played, Submission, PlayThrough and Listener have
--                         the proofs
--   Observer              src/MpdObserver.hxx, src/MpdObserver.cxx: Query has QueryState() and Update(),
--                         Timers OnIdleResponse() and the events, Protocol and Runs what the listener
--                         is told
--   Program               Instance as the listener of its observer: both together; Naming and Running
--                         have the proofs
--   IniFile               src/IniFile.cxx: parse_line is IniParser::ParseLine(), read_ini_file is
--                         ReadIniFile(); Maps and Sorted have std::map, Change, Safety and
--                         Pairs the proofs
--   Base                  lists, options, integers and Boolean tests that the other files share
--   ReadConfig            src/ReadConfig.cxx, src/Config.hxx: file_read_config; Types has the
--                         configuration, Paths the default paths, Strtol what is used of the C library,
--                         Values, Scrobblers and Complete the proofs
--   CommandLine           src/CommandLine.cxx, src/util/OptionParser.cxx (Util.OptionParser) and
--                         src/util/OptionDef.hxx: parse_cmdline; Words has the meaning of a command line,
--                         Advance and Ends that parsing ends
--   Event                 src/event/: Types and Wheel have the timer wheel and the sorted list of timers,
--                         Loop what a callback can ask of the loop, Run the loops that run callbacks:
--                         run_wheel is TimerWheel::Run(), run_timers TimerList::Run(), handle_timers
--                         HandleTimers(), round a round of EventLoop::Run() up to Wait(). All, Closed,
--                         Keeps, Coarse, Buckets, Started, Span, Sleep, Quiet, Rest, Handled and Rounds
--                         have the proofs of what a round leaves, Ends, Budget and Finish that it ends,
--                         Due that timers run when due. Socket has SocketEvent and the lists of
--                         sockets, Linked their proofs
--   Curl                  src/lib/curl/Request.cxx, src/lib/curl/Handler.hxx: done is
--                         CurlRequest::Done(); update_timeout and socket_action are of
--                         src/lib/curl/Global.cxx; Transfer has the life of a request
-- The modules named Tests run the definitions on concrete inputs.
--
-- How it is modelled. An object is a record of its members, and a method a function from the record, and
-- from what it reads outside, to the new record. A failed assert() is `none`: a method returns an Option,
-- and a theorem that gives a result says that no assertion fails. An exception is a value of its own. A
-- timer is the delay it was scheduled with while it is pending; the event loop enters as the events that
-- can come: a timer that is pending expires, a request under way is answered or fails, a watched socket
-- is ready unless a deferred event is pending. Durations and times are whole nanoseconds, and a `char` is
-- a number from 0 to 255. The loops are structural recursion on lists and need no fuel, but for these:
-- the digits of a number are made on fuel, one above the number, which is enough as each step divides it
-- by ten; the loop over the options has one round more than there are arguments, each of which takes an
-- argument; and the loops of the event loop whose lists a callback can fill again run on fuel, of which a
-- theorem says how much is enough, as they need not end for callbacks that ask for ever more. The loops
-- over the buckets of the timer wheel have 240 rounds, one for each bucket, and that over a bucket one for
-- each timer in it. The callbacks of the event loop are a parameter: what one does is a new state of the
-- rest of the program and a list of commands to the loop.
--
-- Parameters. The MD5 hash and curl_escape are functions in the record Env; what libmpdclient answers is
-- an argument of the handlers of the observer; the clock, as_timestamp() and log_date() are arguments of
-- what calls them; the environment, which files exist and what they hold are arguments of ReadConfig.
-- What a theorem needs of them is among its hypotheses: that the clock is past its epoch and does not go
-- back, that a song has an artist and a title, or that the values of its tags are not empty.
--
-- What libcurl hands over and reports, and what the poll backend answers, are arguments. The assertions
-- of the timers and of the timer wheel are not checks of the model. The model is that
-- of the build without Boost and without the threaded event loop.
--
-- Left out: main(), the daemon, the log, and the wrappers of epoll, libcurl, libgcrypt and of system
-- calls; the messages that CurlGlobal::ReadInfo() hands out; the sockets are modelled apart from the
-- rounds of the event loop, and its timers apart from those of the observer and the scrobbler, which are
-- taken to expire only while they are pending; errors of fprintf() and fclose(); overflow of the 64-bit durations, which takes
-- centuries, and of the line counter of the configuration file.
pub mod Base
pub mod Text
pub mod Record
pub mod Form
pub mod Util
pub mod Scrobbler
pub mod Journal
pub mod MultiScrobbler
pub mod Song
pub mod Stopwatch
pub mod Instance
pub mod Observer
pub mod IniFile
pub mod ReadConfig
pub mod Program
pub mod CommandLine
pub mod Event
pub mod Curl
